-- ===== src/Tests.antt =====
-- Tests on concrete inputs, and the theorems at inputs that meet their hypotheses.
mod Data
mod StoreTests
mod PathTests
mod SetTests
mod GetTests
mod DeviceTests
mod ConfigTests
mod SubscribeTests
mod Layout
mod MirrorTests
mod SystemTests
