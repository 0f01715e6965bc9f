-- ===== src/Command/Saves.antt =====
-- The checkpoints among the effects of the loop of `runFollower` (cmd/ag-audit/main.go): their
-- positions, and the lines written before them.
use aesirguard_audit.Base.{
  ℕ, Bytes, Bool, false, List, [], ◌∷◌, ◌++◌, map, ◌&&◌, not, Option, none, some, ◌≡◌, refl, ap,
  sym, ◌∙◌, inl, inr, arith, All, All-append, Option-cases,
}
use aesirguard_audit.Base.Sort.{Pairs}
use aesirguard_audit.Record.{SourcePosition}
use aesirguard_audit.Collector.Checkpoint.{Checkpoint}
use aesirguard_audit.Parser.Values.{is_negative}
use aesirguard_audit.Output.Sink.{FileEffect}
use aesirguard_audit.Output.Durable.{unsynced, unsynced-append, OnlyIn}
use aesirguard_audit.Command.Processor.{Written, ProcessorError, Outcome}
use aesirguard_audit.Command.Checkpoints.{
  PersistEffect, on_output, save_state, source_end_before, checkpoint_of,
}
use aesirguard_audit.Command.Loop.{
  Loop, LoopOutcome, and_next, processing_error, processed, reported,
}
use aesirguard_audit.Command.Durable.{Confines}

-- The files with lines not synced yet, behind effects on the output and checkpoints saved.
unfoldable pub left_unsynced : List PersistEffect → List ℕ → List ℕ
left_unsynced [] files = files
left_unsynced (on_output e ∷ es) files = left_unsynced es (unsynced (e ∷ []) files)
left_unsynced (save_state p c ∷ es) files = left_unsynced es files

-- No checkpoint is saved while a line is not synced.
unfoldable pub IsSynced : List PersistEffect → List ℕ → Type 0
IsSynced [] files = Unit
IsSynced (on_output e ∷ es) files = IsSynced es (unsynced (e ∷ []) files)
IsSynced (save_state p c ∷ es) files = (files ≡ []) × IsSynced es files

-- The position that a checkpoint holds. A checkpoint does not tell generations apart; a label does.
unfoldable pub stored : SourcePosition → Checkpoint → SourcePosition
stored label c = record label {
  device = c.device;
  inode = c.inode;
  anchor = c.anchor;
  end = c.offset.magnitude;
  valid = not (is_negative c.offset) && label.valid;
}

-- The positions that the checkpoints saved hold, in order.
unfoldable pub saved : List PersistEffect → List SourcePosition
saved [] = []
saved (on_output e ∷ es) = saved es
saved (save_state p c ∷ es) = stored p c ∷ saved es

-- The second position does not lie before the first one.
abbrev pub NotBack : SourcePosition → SourcePosition → Type 0
NotBack x y = source_end_before y x ≡ false

pub NotBack-trans : (x y z : SourcePosition) → NotBack x y → NotBack y z → NotBack x z
unfolding source_end_before
NotBack-trans x y z h k = ground (arith, h, k)

pub NotBack-refl : (x : SourcePosition) → NotBack x x
unfolding source_end_before
NotBack-refl x = ground arith

-- From a loop whose unsynced lines are in the sink's file: no save before the sync, the positions
-- saved go on from the writer's, and from the last of them the loop can go on in the same way.
pub record Guards (l : Loop) (files : List ℕ) (o : LoopOutcome) : Type 0 where
  pub synced : IsSynced o.effects files
  pub ahead : All (NotBack l.writer.last) (saved o.effects)
  pub in_order : Pairs NotBack (saved o.effects)
  pub confined :
      o.failure ≡ none → OnlyIn o.loop.processor.sink.file (left_unsynced o.effects files)
  pub behind : o.failure ≡ none → All (λ p. NotBack p o.loop.writer.last) (saved o.effects)
  pub forward : o.failure ≡ none → NotBack l.writer.last o.loop.writer.last

pub stored-checkpoint_of :
    (path : Bytes) (position : SourcePosition) (now : ℕ)
    → stored position (checkpoint_of path position now) ≡ position
unfolding stored checkpoint_of
stored-checkpoint_of path position now = refl

pub left_unsynced-append :
    (xs ys : List PersistEffect) (files : List ℕ)
    → left_unsynced (xs ++ ys) files ≡ left_unsynced ys (left_unsynced xs files)
unfolding left_unsynced
left_unsynced-append [] ys files = refl
left_unsynced-append (on_output e ∷ xs) ys files =
    left_unsynced-append xs ys (unsynced (e ∷ []) files)
left_unsynced-append (save_state p c ∷ xs) ys files = left_unsynced-append xs ys files

pub IsSynced-append :
    (xs ys : List PersistEffect) (files : List ℕ)
    → IsSynced xs files
    → IsSynced ys (left_unsynced xs files)
    → IsSynced (xs ++ ys) files
unfolding IsSynced left_unsynced
IsSynced-append [] ys files h k = k
IsSynced-append (on_output e ∷ xs) ys files h k =
    IsSynced-append xs ys (unsynced (e ∷ []) files) h k
IsSynced-append (save_state p c ∷ xs) ys files h k = (h.0, IsSynced-append xs ys files h.1 k)

pub saved-append : (xs ys : List PersistEffect) → saved (xs ++ ys) ≡ saved xs ++ saved ys
unfolding saved
saved-append [] ys = refl
saved-append (on_output e ∷ xs) ys = saved-append xs ys
saved-append (save_state p c ∷ xs) ys = ap (λ zs. stored p c ∷ zs) (saved-append xs ys)

-- Effects on the output alone.
pub map-on_output :
    (es : List (FileEffect Written)) (files : List ℕ)
    → IsSynced (map on_output es) files
      × (saved (map on_output es) ≡ [])
      × (left_unsynced (map on_output es) files ≡ unsynced es files)
unfolding IsSynced saved left_unsynced unsynced
map-on_output [] files = (tt, refl, refl)
map-on_output (e ∷ es) files =
    let (synced, none_saved, left) = map-on_output es (unsynced (e ∷ []) files) in
    (synced, none_saved, left ∙ sym (unsynced-append (e ∷ []) es files))

unprocessed : (x : Option ProcessorError) → processing_error x ≡ none → x ≡ none
unprocessed none h = refl
unprocessed (some e) h = cc h

-- Positions later than a bound, and the bound later than others.
All-weaken :
    (P Q : SourcePosition → Type 0) (xs : List SourcePosition)
    → ((x : SourcePosition) → P x → Q x)
    → All P xs
    → All Q xs
All-weaken P Q [] f h = tt
All-weaken P Q (x ∷ xs) f h = (f x h.0, All-weaken P Q xs f h.1)

Pairs-append :
    (m : SourcePosition) (xs ys : List SourcePosition)
    → Pairs NotBack xs
    → Pairs NotBack ys
    → All (λ p. NotBack p m) xs
    → All (NotBack m) ys
    → Pairs NotBack (xs ++ ys)
Pairs-append m [] ys h k before after = k
Pairs-append m (x ∷ xs) ys h k before after = (
  All-append (NotBack x) xs ys h.0
      (All-weaken (NotBack m) (NotBack x) ys (λ y. NotBack-trans x m y before.0) after),
  Pairs-append m xs ys h.1 k before.1 after,
)

pub and_next-Guards :
    (l : Loop) (files : List ℕ) (o : LoopOutcome) (next : Loop → LoopOutcome)
    → Guards l files o
    → ((m : Loop) (left : List ℕ) → OnlyIn m.processor.sink.file left → Guards m left (next m))
    → Guards l files (and_next o next)
unfolding and_next
and_next-Guards l files o next h k = elim (Option-cases o.failure) [
  | inr (e, bad) ↦ simp bad h
  | inl good ↦
      let left = left_unsynced o.effects files in
      let later = k o.loop left (h.confined good) in
      let es = (next o.loop).effects in
      let unsynced_after = left_unsynced-append o.effects es files in
      let saved_all = saved-append o.effects es in
      let after =
        All-weaken (NotBack o.loop.writer.last) (NotBack l.writer.last) (saved es)
          (λ y. NotBack-trans l.writer.last o.loop.writer.last y (h.forward good)) later.ahead in
      simp good (record {
        synced = IsSynced-append o.effects es files h.synced later.synced;
        ahead =
            rw saved_all
              (All-append (NotBack l.writer.last) (saved o.effects) (saved es) h.ahead after);
        in_order = rw saved_all (
            Pairs-append o.loop.writer.last (saved o.effects) (saved es) h.in_order later.in_order
              (h.behind good) later.ahead);
        confined = λ fine. rw unsynced_after (later.confined fine);
        behind = λ fine.
            let last = (next o.loop).loop.writer.last in
            rw saved_all (
              All-append (λ p. NotBack p last) (saved o.effects) (saved es)
                (All-weaken (λ p. NotBack p o.loop.writer.last) (λ p. NotBack p last)
                  (saved o.effects)
                  (λ p b. NotBack-trans p o.loop.writer.last last b (later.forward fine))
                  (h.behind good))
                (later.behind fine));
        forward = λ fine.
            NotBack-trans l.writer.last o.loop.writer.last _ (h.forward good) (later.forward fine);
      })
]

-- A call of the processor saves nothing.
pub processed-Guards :
    (l : Loop) (files : List ℕ) (o : Outcome)
    → OnlyIn l.processor.sink.file files
    → Confines l.processor o
    → Guards l files (processed l o)
unfolding processed
processed-Guards l files o h c =
    let (synced, none_saved, left) = map-on_output o.effects files in
    record {
      synced = synced;
      ahead = rw none_saved tt;
      in_order = rw none_saved tt;
      confined = λ good. rw left (c files h (unprocessed o.failure good));
      behind = λ good. rw none_saved tt;
      forward = λ good. NotBack-refl l.writer.last;
    }

-- A turn that touches neither the output nor the checkpoint.
pub reported-Guards :
    (l m : Loop) (files : List ℕ) (logs : Bool)
    → OnlyIn l.processor.sink.file files
    → m.processor.sink.file ≡ l.processor.sink.file
    → m.writer.last ≡ l.writer.last
    → Guards l files (reported logs m)
unfolding reported IsSynced saved left_unsynced
reported-Guards l m files logs h same last = record {
  synced = tt;
  ahead = tt;
  in_order = tt;
  confined = λ good. rw same h;
  behind = λ good. tt;
  forward = λ good. rw last (NotBack-refl l.writer.last);
}
