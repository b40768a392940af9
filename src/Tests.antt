-- ===== src/Tests.antt =====
-- The theorems of the development at concrete inputs.
mod TreeTests
mod CopyTests
mod CseTests
mod BlocksTests
mod BuildBlocksTests
mod ConstPropTests
mod GenTests
mod LvaTests
mod BuildTests
mod StackTests
mod MachineTests
mod HashTabTests
mod OptimizeTests
mod RegAllocTests
