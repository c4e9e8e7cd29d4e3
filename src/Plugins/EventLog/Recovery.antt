-- ===== src/Plugins/EventLog/Recovery.antt =====
-- What a store finds in its log when it is loaded again.
use agent_native_os.Prelude.{
  ℕ, ◌<◌, Bool, true, false, ◌≡◌, ◌≢◌, refl, ◌∙◌, inl, inr, ◌⊎◌, none, List, [], ◌∷◌, ◌++◌, arith,
}
use agent_native_os.Prelude.Int64.{incr, slt, max_value}
use agent_native_os.Prelude.Result.{bind_ok, Result, ok, err}
use agent_native_os.Plugins.EventLog.{
  Line, LogFile, Write, not_opened, torn, no_newline, not_synced, written, io_error, corrupt_line,
  Numbered, replay_record, replay_lines, load, joined, add_line, tear, append,
}

slt-incr : (x : ℕ) → x < max_value → slt x (incr x) ≡ true
slt-incr x h = ground arith

module _ {D S E : Type 0} (apply : D → S → Result E S) where
  -- Lines that are replayed stand before any others.
  replay_lines-append :
      (cut : Bool) (lines more : List (Line D)) (s s' : Numbered S)
      → replay_lines apply false lines s ≡ ok s'
      → replay_lines apply cut (lines ++ more) s ≡ replay_lines apply cut more s'
  unfolding replay_lines
  replay_lines-append cut [] more s s' e = cc
  replay_lines-append cut (Line.blank ∷ rest) more s s' e = replay_lines-append cut rest more s s' e
  replay_lines-append cut (Line.garbage ∷ rest) more s s' e = cc
  replay_lines-append cut (Line.entry rec ∷ rest) more s s' e =
      let (s1, now, later) = bind_ok (replay_record apply rec s) _ e in
      rw now (replay_lines-append cut rest more s1 s' later)

  -- The log says what the store holds.
  abbrev pub IsDurable : S → Numbered S × LogFile D → Type 0
  IsDurable empty (s, file) = load apply empty file ≡ ok s

  -- A store after one more record, which its state accepts.
  abbrev pub after : Numbered S → S → Numbered S
  after s state = record { state = state; seq = incr s.seq }

  replay_next :
      (d : D) (s : Numbered S) (state : S)
      → apply d s.state ≡ ok state
      → s.seq < max_value
      → replay_record apply (record { seq = incr s.seq; contents = d }) s ≡ ok (after s state)
  unfolding replay_record
  replay_next d s state e room = rw (e, replay_record, slt-incr s.seq room)

  load_lines :
      (empty : S) (file : LogFile D) (s : Numbered S)
      → file.unfinished ≡ none
      → load apply empty file ≡ ok s
      → replay_lines apply false file.lines (record { state = empty; seq = 0 }) ≡ ok s
  unfolding load
  load_lines empty file s whole e = rw whole at e

  -- A record that is written behind the lines, with its newline or without, is replayed after them.
  replay_added :
      (cut : Bool) (empty : S) (d : D) (s : Numbered S) (file : LogFile D) (state : S)
      → file.unfinished ≡ none
      → apply d s.state ≡ ok state
      → s.seq < max_value
      → load apply empty file ≡ ok s
      → replay_lines apply cut
          (file.lines ++ joined file.unfinished (record { seq = incr s.seq; contents = d }) ∷ [])
          (record { state = empty; seq = 0 })
        ≡ ok (after s state)
  unfolding replay_lines
  replay_added cut empty d s file state whole accepted room e =
      replay_lines-append cut file.lines _ _ s (load_lines empty file s whole e)
      ∙ rw (whole, joined, replay_lines, replay_next d s state accepted room)

  load-add_line :
      (empty : S) (d : D) (s : Numbered S) (file : LogFile D) (state : S)
      → file.unfinished ≡ none
      → apply d s.state ≡ ok state
      → s.seq < max_value
      → load apply empty file ≡ ok s
      → load apply empty (add_line (record { seq = incr s.seq; contents = d }) file)
        ≡ ok (after s state)
  unfolding load add_line
  load-add_line = replay_added false

  load-tear :
      (empty : S) (s : Numbered S) (file : LogFile D)
      → file.unfinished ≡ none
      → load apply empty file ≡ ok s
      → load apply empty (tear file) ≡ ok s
  unfolding load tear replay_lines
  load-tear empty s file whole e =
      replay_lines-append true file.lines _ _ s (load_lines empty file s whole e)

  corrupt :
      (empty : S) (file : LogFile D) (s : Numbered S) (d : D)
      → file.unfinished ≡ none
      → load apply empty file ≡ ok s
      → load apply empty (add_line (record { seq = incr s.seq; contents = d }) (tear file))
        ≡ err corrupt_line
  unfolding load add_line tear replay_lines
  corrupt empty file s d whole e =
      replay_lines-append false file.lines _ _ s (load_lines empty file s whole e)

  -- For a file that ends in a newline and loads as the store in memory, a record that the state
  -- accepts, and a last number below the greatest: an append that the system carries out succeeds,
  -- the file ends in a newline again, and loading it gives the new store in memory, where the
  -- record is applied and its number is the last one.
  pub append-IsDurable :
      (empty : S) (d : D) (s : Numbered S) (file : LogFile D) (state : S)
      → file.unfinished ≡ none
      → apply d s.state ≡ ok state
      → s.seq < max_value
      → IsDurable empty (s, file)
      → let (result, (s', file')) = append apply written d (s, file) in
        (result ≡ ok tt)
        × (s' ≡ after s state)
        × (file'.unfinished ≡ none)
        × IsDurable empty (s', file')
  unfolding append
  append-IsDurable empty d s file state whole accepted room e =
      rw (accepted, append)
        (
          refl,
          refl,
          unfold add_line in refl,
          load-add_line empty d s file state whole accepted room e,
        )

  -- For a file that ends in a newline and loads as the store in memory, a record that the state
  -- accepts, and a last number below the greatest: an append whose write fails reports it and leaves
  -- the store in memory as it was, and a file that loads: either as the store in memory, or as the
  -- store with the record applied.
  pub append_failure :
      (empty : S) (w : Write) (d : D) (s : Numbered S) (file : LogFile D) (state : S)
      → w ≢ written
      → file.unfinished ≡ none
      → apply d s.state ≡ ok state
      → s.seq < max_value
      → IsDurable empty (s, file)
      → let (result, (s', file')) = append apply w d (s, file) in
        (result ≡ err io_error)
        × (s' ≡ s)
        × (IsDurable empty (s, file') ⊎ IsDurable empty (after s state, file'))
  unfolding append load
  append_failure empty not_opened d s file state failed whole accepted room e = (refl, refl, inl e)
  append_failure empty torn d s file state failed whole accepted room e =
      (refl, refl, inl (load-tear empty s file whole e))
  append_failure empty no_newline d s file state failed whole accepted room e =
      (refl, refl, inr (replay_added true empty d s file state whole accepted room e))
  append_failure empty not_synced d s file state failed whole accepted room e =
      (refl, refl, inr (load-add_line empty d s file state whole accepted room e))
  append_failure empty written d s file state failed whole accepted room e = absurd (failed refl)

  -- For a file that ends in a newline and loads as the store in memory: after a torn write, which
  -- leaves a part of a line, the next append of a record that the state accepts succeeds, and the
  -- file does not load any more, since the two pieces stand on one line that ends in a newline.
  pub torn_append_unloadable :
      (empty : S) (d d' : D) (s : Numbered S) (file : LogFile D) (state : S)
      → file.unfinished ≡ none
      → apply d' s.state ≡ ok state
      → IsDurable empty (s, file)
      → let (failed, torn_world) = append apply torn d (s, file) in
        let (result, (s', file')) = append apply written d' torn_world in
        (failed ≡ err io_error) × (result ≡ ok tt) × (load apply empty file' ≡ err corrupt_line)
  unfolding append tear
  torn_append_unloadable empty d d' s file state whole accepted e =
      (refl, rw (accepted, append), rw (accepted, append) (corrupt empty file s d' whole e))
