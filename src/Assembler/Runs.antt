-- ===== src/Assembler/Runs.antt =====
-- Whole runs of the bounded assembler: `AddRecovering` on each record of a stream, then
-- `FlushAllWith`, as cmd/ag-audit drives assembler.go and isolation.go.
use aesirguard_audit.Base.{
  true, false, ℕ, ◌+◌, Bool, List, [], ◌∷◌, ◌++◌, none, some, ◌≡◌, refl, inl, inr, arith, sum_by,
  sum_by-append, codes, if◌then◌else◌,
}
use mathlib.Core.Path.{subst}
use mathlib.Core.Option.{some-injective}
use aesirguard_audit.Record.{Record}
use aesirguard_audit.Assembler.State.{
  Assembler, AssemblerLimits, AssembledEvent, Completion, new_assembler, new_bounded_assembler,
}
use aesirguard_audit.Assembler.Expiry.{flush_all_with}
use aesirguard_audit.Assembler.Isolation.{add_recovering}
use aesirguard_audit.Assembler.Accounts.{held, emitted, IsAccounted}
use aesirguard_audit.Assembler.Delivery.{flush_all_with-empty}
use aesirguard_audit.Assembler.Exceptions.{Accounts}
use aesirguard_audit.Assembler.Recovery.{add_recovering-Accounts}
use aesirguard_audit.Assembler.Bounds.{IsBounded}
use aesirguard_audit.Assembler.Tracking.{IsTracked}

-- Each record with the time of its arrival; the events come out in the order of the calls.
unfoldable pub feed : List (Record × ℕ) → Assembler → Assembler × List AssembledEvent
feed [] a = (a, [])
feed ((r, now) ∷ rs) a =
    let (b, (es, diagnostic)) = add_recovering r now a in
    let (c, rest) = feed rs b in (c, es ++ rest)

-- All that a run emits.
unfoldable pub run : List (Record × ℕ) → Completion → Assembler → List AssembledEvent
run rs completion a =
    let (b, es) = feed rs a in let (c, rest) = flush_all_with completion b in es ++ rest

-- A weight that an EOE record, which carries no event data, does not have.
abbrev pub SkipsEoe : (Record → ℕ) → Type 0
SkipsEoe w = (r : Record) → r.record_type ≡ codes "EOE" → w r ≡ 0

pub emitted-append :
    (w : Record → ℕ) (es fs : List AssembledEvent)
    → emitted w (es ++ fs) ≡ emitted w es + emitted w fs
emitted-append w es fs = sum_by-append (λ (e : AssembledEvent). sum_by w e.records) es fs

-- One call moves weight from the record and the pending events to the events returned.
pub add_recovering-balance :
    (w : Record → ℕ) (r : Record) (now : ℕ) (a : Assembler)
    → SkipsEoe w
    → Accounts r a (add_recovering r now a)
    → held (sum_by w) (add_recovering r now a).0 + emitted w (add_recovering r now a).1.0
      ≡ held (sum_by w) a + w r
add_recovering-balance w r now a skips (inl d) = d.balance w
add_recovering-balance w r now a skips (inr (eoe, d)) = omega (arith, d.balance w, skips r eoe)

pub IsAccounted-after :
    (r : Record) (now : ℕ) (a : Assembler)
    → Accounts r a (add_recovering r now a)
    → IsAccounted (add_recovering r now a).0
IsAccounted-after r now a (inl d) = d.accounted
IsAccounted-after r now a (inr (eoe, d)) = d.accounted

feed-Conserves :
    (w : Record → ℕ) (rs : List (Record × ℕ)) (a : Assembler)
    → SkipsEoe w
    → IsAccounted a
    → (held (sum_by w) (feed rs a).0 + emitted w (feed rs a).1
        ≡ held (sum_by w) a + sum_by (λ (x : Record × ℕ). w x.0) rs)
      × IsAccounted (feed rs a).0
unfolding feed
feed-Conserves w [] a skips v = (omega arith, v)
feed-Conserves w ((r, now) ∷ rs) a skips v =
    let b = add_recovering r now a in
    let moved = add_recovering-Accounts r now a v in
    let (rest, still) = feed-Conserves w rs b.0 skips (IsAccounted-after r now a moved) in
    (
      omega (
        arith,
        add_recovering-balance w r now a skips moved,
        rest,
        emitted-append w b.1.0 (feed rs b.0).1,
      ),
      still,
    )

made :
    (failed : Bool) (x a : Assembler)
    → (if failed then none else some x) ≡ some a
    → (failed ≡ false) × (x ≡ a)
made true x a h = cc
made false x a h = (refl, some-injective x a h)

-- A new bounded assembler is within its limits and its books are in order.
pub new-IsReady :
    (expiry : ℕ) (limits : AssemblerLimits) (a : Assembler)
    → new_bounded_assembler expiry limits ≡ some a
    → IsAccounted a × IsBounded a × IsTracked a × ((g : List Record → ℕ) → held g a ≡ 0)
unfolding new_bounded_assembler new_assembler
new-IsReady expiry limits a h =
    let (positive, is) = made _ (record (new_assembler expiry) { limits = limits }) a h in
    subst (λ x. IsAccounted x × IsBounded x × IsTracked x × ((g : List Record → ℕ) → held g x ≡ 0))
      is
      (
        record { distinct = tt; bytes = refl },
        record {
          positive = (ground (arith, positive), ground (arith, positive));
          few_events = omega arith;
          few_bytes = omega arith;
          few_records = tt;
        },
        record {
          keys_distinct = tt;
          counted = refl;
          few_keys = omega arith;
          few_key_bytes = omega arith;
        },
        λ g. refl,
      )

-- Every record comes out exactly once. For an assembler that `NewBoundedAssembler` made, with any
-- limits and timeout, any stream of records with any arrival times, and any weight on records that
-- ignores EOE records: the events returned along the stream and by the last flush weigh together
-- what the stream weighs.
pub run-Conserves :
    (w : Record → ℕ) (rs : List (Record × ℕ)) (completion : Completion) (expiry : ℕ)
    (limits : AssemblerLimits) (a : Assembler)
    → SkipsEoe w
    → new_bounded_assembler expiry limits ≡ some a
    → emitted w (run rs completion a) ≡ sum_by (λ (x : Record × ℕ). w x.0) rs
unfolding run
run-Conserves w rs completion expiry limits a skips h =
    let (books, bounded, tracked, empty) = new-IsReady expiry limits a h in
    let (moved, still) = feed-Conserves w rs a skips books in
    let (gone, unheld, all) = flush_all_with-empty completion (feed rs a).0 still in
    omega (
      arith,
      moved,
      empty (sum_by w),
      all w,
      emitted-append w (feed rs a).1 (flush_all_with completion (feed rs a).0).1,
    )
