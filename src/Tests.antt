-- ===== src/Tests.antt =====
-- Runs of the model on small inputs, and each theorem at an input that meets its hypotheses.
mod Util
mod Memory
mod Disk
mod Screen
mod Protocol
mod Acpi
mod Block
mod Fat
mod FatDisk
mod Elf
mod Config
mod Firmware
mod Pci
mod Paging
