-- ===== src/Tests/Window.antt =====
-- The window of messages on a clock without changes.
use javi.Prelude.{arith}
use javi.Timewindow.{rating_send_time}
use javi.Timewindow.Window.{KeepsWindowStart, InWindow, rating_send_time-InWindow}
use javi.Tests.Sample.{env, noon}

sample_keeps : KeepsWindowStart env
sample_keeps = record { same_day = λ dt. ground arith; next_day = λ dt. ground arith }

rating_send_time-InWindow_example : InWindow env (rating_send_time env noon)
rating_send_time-InWindow_example = rating_send_time-InWindow env sample_keeps noon
