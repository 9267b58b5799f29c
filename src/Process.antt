-- ===== src/Process.antt =====
-- lib/process.h: what a process returns to the scheduler of lib/process.c; FQL_FAIL is the `none` of an
-- Option.
pub mod Filter
pub mod Schedule

pub data ProcReturn : Type 0 where
  complete : ProcReturn
  running : ProcReturn
  wait_on_in0 : ProcReturn
  wait_on_in1 : ProcReturn
  wait_on_in_either : ProcReturn
  wait_on_in_both : ProcReturn
  wait_on_out0 : ProcReturn
  wait_on_out1 : ProcReturn
