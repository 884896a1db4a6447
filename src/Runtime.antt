-- ===== src/Runtime.antt =====
-- The calls that leave the process: the clock, generated tokens, the messaging provider, the task
-- queue. Each uses up one call number, and a provider call is kept in the outbox.
use javi.Prelude.{ℕ, suc, String, Option, none, some, if◌then◌else◌, List, ◌∷◌}
use javi.Env.{Env, MessageText, SendResult}
use javi.World.{World, Task}
use javi.Exec.{Exec, pure, ok}

abbrev pub tick : World → World
tick w = record w { calls = suc w.calls }

module _ (env : Env) where
  -- `timezone.now()`
  abbrev pub timezone_now : Exec ℕ
  timezone_now w = (ok (env.clock w.calls), tick w)

  -- `now or timezone.now()`
  abbrev pub now_or : Option ℕ → Exec ℕ
  now_or none = timezone_now
  now_or (some t) = pure t

  -- `secrets.token_urlsafe(24)`
  abbrev pub new_tracking_token : Exec String
  new_tracking_token w = (ok (env.token_urlsafe w.calls), tick w)

  -- `uuid.uuid4()`
  abbrev pub uuid4 : Exec ℕ
  uuid4 w = (ok (env.uuid4 w.calls), tick w)

  -- `get_messaging_provider().send_text(phone, text)`
  abbrev pub provider_send : String → MessageText → Exec SendResult
  provider_send phone text w = (
    ok (env.send_text w.calls phone text),
    record (tick w) { outbox = record { phone = phone; text = text } ∷ w.outbox },
  )

  -- `get_messaging_provider_for(paths).send_text(phone, text)`
  abbrev pub provider_send_by : List String → String → MessageText → Exec SendResult
  provider_send_by paths phone text w = (
    ok (env.send_text_by paths w.calls phone text),
    record (tick w) { outbox = record { phone = phone; text = text } ∷ w.outbox },
  )

  -- A call of the task scheduler inside `try ... except Exception: logger.exception(...)`.
  abbrev pub enqueue : Task → Exec (Unit {0})
  enqueue task w = (
    ok tt,
    if env.enqueue_fails w.calls then tick w else record (tick w) { tasks = task ∷ w.tasks },
  )
