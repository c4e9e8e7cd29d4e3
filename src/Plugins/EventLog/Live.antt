-- ===== src/Plugins/EventLog/Live.antt =====
-- The stores that a process can have: loaded from any file, and changed by appends, whatever becomes
-- of them.
use agent_native_os.Prelude.{
  Bool, true, false, ◌&&◌, ◌≡◌, subst, inl, inr, List, [], ◌∷◌, ◌++◌, Bool-cases, Option-cases,
}
use agent_native_os.Prelude.Result.{Result, ok, bind_ok, Result-cases}
use agent_native_os.Plugins.EventLog.{
  LogRecord, Line, LogFile, Write, not_opened, torn, no_newline, not_synced, written, Numbered,
  replay_record, replay_lines, load, all_blank, append,
}

module _ {D S E : Type 0} (apply : D → S → Result E S) (empty : S) where
  pub data IsLive : Numbered S × LogFile D → Type 0 where
    loaded : (file : LogFile D) (s : Numbered S) → load apply empty file ≡ ok s → IsLive (s, file)
    appended :
        (w : Write) (d : D) {o : Numbered S × LogFile D} → IsLive o → IsLive (append apply w d o).1

  module _ (P : S → Type 0) (start : P empty)
      (step : (d : D) (s s' : S) → apply d s ≡ ok s' → P s → P s') where
    replay_record-keeps :
        (rec : LogRecord D) (s s' : Numbered S)
        → replay_record apply rec s ≡ ok s'
        → P s.state
        → P s'.state
    unfolding replay_record
    replay_record-keeps rec s s' e p = elim (Result-cases (apply rec.contents s.state)) [
      | inr (x, refused_one) ↦ absurd (cc (rw (refused_one, replay_record) at e))
      | inl (state, accepted) ↦
          let same : state ≡ s'.state = cc (rw (accepted, replay_record) at e) in
          subst P same (step rec.contents s.state state accepted p)
    ]

    replay_lines-keeps :
        (cut : Bool) (lines : List (Line D)) (s s' : Numbered S)
        → replay_lines apply cut lines s ≡ ok s'
        → P s.state
        → P s'.state
    unfolding replay_lines
    replay_lines-keeps cut [] s s' e p = let same : s.state ≡ s'.state = cc in subst P same p
    replay_lines-keeps cut (Line.blank ∷ rest) s s' e p = replay_lines-keeps cut rest s s' e p
    replay_lines-keeps cut (Line.garbage ∷ rest) s s' e p =
        elim (Bool-cases (cut && all_blank rest)) [
          | inl last ↦ let same : s.state ≡ s'.state = cc (rw last at e) in subst P same p
          | inr inside ↦ absurd (cc (rw inside at e))
        ]
    replay_lines-keeps cut (Line.entry rec ∷ rest) s s' e p =
        let (s1, now, later) = bind_ok (replay_record apply rec s) _ e in
        replay_lines-keeps cut rest s1 s' later (replay_record-keeps rec s s1 now p)

    load-keeps : (file : LogFile D) (s : Numbered S) → load apply empty file ≡ ok s → P s.state
    unfolding load
    load-keeps file s e = elim (Option-cases file.unfinished) [
      | inl whole ↦ replay_lines-keeps false file.lines _ s (rw (whole, load) at e) start
      | inr (piece, cut) ↦
          replay_lines-keeps true (file.lines ++ piece ∷ []) _ s (rw (cut, load) at e) start
    ]

    append-keeps :
        (w : Write) (d : D) (o : Numbered S × LogFile D)
        → P o.0.state
        → P (append apply w d o).1.0.state
    unfolding append
    append-keeps not_opened d o p = p
    append-keeps torn d o p = p
    append-keeps no_newline d o p = p
    append-keeps not_synced d o p = p
    append-keeps written d o p = elim (Result-cases (apply d o.0.state)) [
      | inr (x, refused_one) ↦ rw (refused_one, append) p
      | inl (state, accepted) ↦ rw (accepted, append) (step d o.0.state state accepted p)
    ]

    -- What every record keeps, holds in every store that a process can have.
    pub IsLive-keeps : {o : Numbered S × LogFile D} → IsLive o → P o.0.state
    IsLive-keeps (loaded file s e) = load-keeps file s e
    IsLive-keeps (appended w d live) = append-keeps w d _ (IsLive-keeps live)
