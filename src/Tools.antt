-- ===== src/Tools.antt =====
-- The programs of bin/.
pub mod Common
pub mod Params
pub mod Launch
pub mod LaunchQuiet
pub mod LaunchLaws
pub mod LaunchPhases
pub mod LaunchSafe
pub mod ExecTimes
pub mod ExecTimesLaws
pub mod Spin
pub mod SpinMain
pub mod SpinQuiet
pub mod SpinPhases
pub mod SpinRun
pub mod SpinLife
pub mod Release
pub mod ReleaseLaws
pub mod SpinTime
pub mod SpinEnds
pub mod SpinFinish
pub mod SpinTotal
pub mod SpinFile
pub mod BaseTask
pub mod BaseTaskLaws
pub mod Clocks
pub mod NullCall
pub mod NullCallLaws
pub mod ThreadsLaws
pub mod LaunchExec
pub mod SpinSteady
pub mod SpinReturns
pub mod SpinDone
pub mod Cycles
pub mod CycleLaws
