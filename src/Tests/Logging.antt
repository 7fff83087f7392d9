-- ===== src/Tests/Logging.antt =====
-- The log methods at concrete inputs.
use endurox_java.Logging.{tplog_dump_diff, tplogex, tplog_dump, tplog_c, LogCall, Logs, Chars}
use endurox_java.Base.{Bool, true, false, Option, none, some, List, [], ◌∷◌}
use endurox_java.Base.Bytes.{codes}
use endurox_java.Buffers.{Exception, typed_ubf}
use endurox_java.Exceptions.Backtrace.{Throwable, uncaused}
use endurox_java.Ubf.{at}

abbrev message : Option Chars
message = some (record { bytes = codes "hi"; copied = true })

abbrev start : Logs
start = record {
  world = record {
    heap = λ p. none;
    objects = λ i. record { clazz = typed_ubf; do_finalize = false; c_ptr = 0; len = 0 };
    next = 0;
    pending = none;
    ctx_set = false;
    undefined = false;
  };
  refs = 1;
  copies = 0;
  entries = [];
}

abbrev trace : Exception → Throwable
trace e = uncaused (record { frames = some []; message = some (codes "TPEINVAL") })

-- With a context, without one, the log of the exception that this leaves, and a difference.
abbrev four_calls : List (Bool × LogCall)
four_calls =
    (true, tplog_c 5 none (at 7) message)
    ∷ (false, tplog_dump 5 message (some (record { bytes = 1 ∷ []; copied = true })))
    ∷ (true, tplogex 2 message none)
    ∷ (
      true,
      tplog_dump_diff 4 none (some (record { bytes = 1 ∷ []; copied = true }))
          (some (record { bytes = 2 ∷ []; copied = true })),
    )
    ∷ []
