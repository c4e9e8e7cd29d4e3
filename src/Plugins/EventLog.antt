-- ===== src/Plugins/EventLog.antt =====
-- The append-only log that every plugin's store keeps: Load and append of plugins/*/store.go, which
-- are the same code over different records. A line is what encoding/json makes of it.
pub mod Recovery
pub mod Live
use agent_native_os.Prelude.{
  ℕ, Bool, true, false, ◌&&◌, Option, none, some, List, [], ◌∷◌, ◌++◌, if◌then◌else◌,
}
use agent_native_os.Prelude.Int64.{incr, slt}
use agent_native_os.Prelude.Result.{Result, ok, err, ◌>>=◌}

module _ (D : Type 0) where
  pub record LogRecord : Type 0 where
    pub seq : ℕ
    pub contents : D

  -- What a line decodes to. `garbage` is no JSON object of a record.
  pub data Line : Type 0 where
    blank garbage : Line
    entry : LogRecord → Line

  -- A file: its lines that end in a newline, and the rest, if the last byte is no newline.
  pub record LogFile : Type 0 where
    pub lines : List Line
    pub unfinished : Option Line

-- What the operating system does with one append.
pub data Write : Type 0 where
  -- the file cannot be opened
  not_opened : Write
  -- a part of the line is written, or all of it but the newline
  torn no_newline : Write
  -- the line is written, and Sync or Close fails
  not_synced : Write
  written : Write

pub data LogError (E : Type 0) : Type 0 where
  io_error corrupt_line : LogError E
  refused : E → LogError E

-- A store: what the records are applied to, and the number of the last one.
pub record Numbered (S : Type 0) : Type 0 where
  pub state : S
  pub seq : ℕ

abbrev pub all_blank : {D : Type 0} → List (Line D) → Bool
all_blank [] = true
all_blank (Line.blank ∷ rest) = all_blank rest
all_blank (_ ∷ rest) = false

module _ {D S E : Type 0} (apply : D → S → Result E S) where
  -- One record of a replay.
  unfoldable pub replay_record : LogRecord D → Numbered S → Result (LogError E) (Numbered S)
  replay_record rec s = elim (apply rec.contents s.state) [
    | err e ↦ err (refused e)
    | ok state ↦ ok (record { state = state; seq = if slt s.seq rec.seq then rec.seq else s.seq })
  ]

  -- The loop over the lines. One that does not decode is skipped if no text is behind it and the
  -- file, as `cut` says, does not end in a newline.
  unfoldable pub replay_lines : Bool → List (Line D) → Numbered S → Result (LogError E) (Numbered S)
  replay_lines cut [] s = ok s
  replay_lines cut (Line.blank ∷ rest) s = replay_lines cut rest s
  replay_lines cut (Line.garbage ∷ rest) s =
      if cut && all_blank rest then ok s else err corrupt_line
  replay_lines cut (Line.entry rec ∷ rest) s =
      replay_record rec s >>= λ s'. replay_lines cut rest s'

  -- Load.
  unfoldable pub load : S → LogFile D → Result (LogError E) (Numbered S)
  load empty file = elim file.unfinished [
    | none ↦ replay_lines false file.lines (record { state = empty; seq = 0 })
    | some piece ↦ replay_lines true (file.lines ++ piece ∷ []) (record { state = empty; seq = 0 })
  ]

-- A line that is written behind an unfinished one: two objects on one line do not decode.
abbrev pub joined : {D : Type 0} → Option (Line D) → LogRecord D → Line D
joined none rec = Line.entry rec
joined (some Line.blank) rec = Line.entry rec
joined (some _) rec = Line.garbage

module _ {D : Type 0} where
  unfoldable pub add_line : LogRecord D → LogFile D → LogFile D
  add_line rec file = record {
    lines = file.lines ++ joined file.unfinished rec ∷ [];
    unfinished = none;
  }

  unfoldable pub tear : LogFile D → LogFile D
  tear file = record file { unfinished = some Line.garbage }

module _ {D S E : Type 0} (apply : D → S → Result E S) where
  -- append: the record goes to the file first, and is applied when it is there.
  unfoldable pub append :
      Write → D → Numbered S × LogFile D → Result (LogError E) (Unit {0}) × (Numbered S × LogFile D)
  append not_opened d (s, file) = (err io_error, (s, file))
  append torn d (s, file) = (err io_error, (s, tear file))
  append no_newline d (s, file) = (
    err io_error,
    (
      s,
      record file {
        unfinished = some (joined file.unfinished (record { seq = incr s.seq; contents = d }));
      },
    ),
  )
  append not_synced d (s, file) =
      (err io_error, (s, add_line (record { seq = incr s.seq; contents = d }) file))
  append written d (s, file) =
      let file' = add_line (record { seq = incr s.seq; contents = d }) file in
      elim (apply d s.state) [
        | err e ↦ (err (refused e), (s, file'))
        | ok state ↦ (ok tt, (record { state = state; seq = incr s.seq }, file'))
      ]
