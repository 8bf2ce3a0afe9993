-- ===== src/Tests.antt =====
-- Tests, on concrete inputs, of the other modules.
mod ReqTests
mod UtilsTests
mod HtTests
mod PatplexTests
mod RateQueueTests
mod CfTests
mod FcgiTests
mod BufioTests
mod AccesslogTests
mod DirplexTests
