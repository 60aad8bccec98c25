-- ===== src/Tests.antt =====
-- Runs of the models on concrete inputs.
mod Dns
mod Pieces
mod Image
mod Patch
mod Build
mod Extract
mod Lifeline
mod CommandLine
mod Process
mod Full
mod Refused
mod Answered
