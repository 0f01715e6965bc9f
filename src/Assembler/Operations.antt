-- ===== src/Assembler/Operations.antt =====
-- Every sequence of the assembler's public operations (assembler.go, isolation.go), in any order.
use aesirguard_audit.Base.{
  ℕ, ◌+◌, List, [], ◌∷◌, ◌++◌, some, ◌≡◌, ap, sym, ◌∙◌, arith, sum_by, Bytes,
}
use aesirguard_audit.Base.Maps.{total}
use aesirguard_audit.Record.{Record, SourcePosition}
use aesirguard_audit.Assembler.State.{
  Assembler, AssemblerLimits, AssembledEvent, Completion, PendingEvent, new_bounded_assembler,
}
use aesirguard_audit.Assembler.Expiry.{
  flush_all_with, flush_expired, expire_rejected, source_bytes_of,
}
use aesirguard_audit.Assembler.Isolation.{add_recovering}
use aesirguard_audit.Assembler.Reject.{reject_physical_line}
use aesirguard_audit.Assembler.Accounts.{held, emitted, IsAccounted}
use aesirguard_audit.Assembler.Delivery.{flush_all_with-empty, flush_expired-Delivers}
use aesirguard_audit.Assembler.Recovery.{add_recovering-Accounts}
use aesirguard_audit.Assembler.Bounds.{IsBounded, Shrinks-IsBounded}
use aesirguard_audit.Assembler.Shrinking.{expired-Shrinks}
use aesirguard_audit.Assembler.Tracking.{
  IsTracked, SameTracking-IsTracked, expire_rejected-IsTracked,
}
use aesirguard_audit.Assembler.Untouched.{expired-SameTracking}
use aesirguard_audit.Assembler.RejectedKeys.{add_recovering-IsTracked}
use aesirguard_audit.Assembler.RecoveryBounds.{add_recovering-IsBounded, expire_rejected-Shrinks}
use aesirguard_audit.Assembler.LineLimit.{reject_physical_line-Delivers}
use aesirguard_audit.Assembler.LineLimitBounds.{
  flush_all_with-IsTracked, reject_physical_line-IsTracked,
}
use aesirguard_audit.Assembler.LineLimitSizes.{
  flush_all_with-Shrinks, reject_physical_line-IsBounded,
}
use aesirguard_audit.Assembler.Runs.{
  SkipsEoe, add_recovering-balance, IsAccounted-after, emitted-append, new-IsReady,
}

-- A call of one of the methods that change the assembler, with its arguments.
pub data Operation : Type 0 where
  add : Record → ℕ → Operation
  reject_line : Bytes → SourcePosition → ℕ → Operation
  expire : ℕ → Operation
  flush : Completion → Operation

-- The records that a call hands over.
abbrev pub handed : Operation → List Record
handed (add r now) = r ∷ []
handed (reject_line prefix s now) = []
handed (expire now) = []
handed (flush c) = []

unfoldable pub operate : (Bytes → Bytes) → Operation → Assembler → Assembler × List AssembledEvent
operate normalize (add r now) a = ((add_recovering r now a).0, (add_recovering r now a).1.0)
operate normalize (reject_line prefix s now) a = reject_physical_line normalize prefix s now a
operate normalize (expire now) a = flush_expired now a
operate normalize (flush c) a = flush_all_with c a

unfoldable pub operate_all :
    (Bytes → Bytes) → List Operation → Assembler → Assembler × List AssembledEvent
operate_all normalize [] a = (a, [])
operate_all normalize (x ∷ xs) a =
    let (b, es) = operate normalize x a in
    let (c, rest) = operate_all normalize xs b in (c, es ++ rest)

-- The books, the limits and the rejected keys are in order.
pub record IsSound (a : Assembler) : Type 0 where
  pub books : IsAccounted a
  pub bounded : IsBounded a
  pub tracked : IsTracked a

-- What a call takes over, it holds or has given out.
abbrev Balances : (Record → ℕ) → List Record → Assembler → Assembler × List AssembledEvent → Type 0
Balances w rs a x = held (sum_by w) x.0 + emitted w x.1 ≡ held (sum_by w) a + sum_by w rs

flush_expired-IsBounded :
    (now : ℕ) (a : Assembler) → IsBounded a → IsBounded (flush_expired now a).0
unfolding flush_expired
flush_expired-IsBounded now a v =
    let b = expire_rejected now a in
    Shrinks-IsBounded b _ (expired-Shrinks now b)
      (Shrinks-IsBounded a b (expire_rejected-Shrinks now a) v)

flush_expired-IsTracked :
    (now : ℕ) (a : Assembler) → IsTracked a → IsTracked (flush_expired now a).0
unfolding flush_expired
flush_expired-IsTracked now a v =
    let b = expire_rejected now a in
    SameTracking-IsTracked b _ (expired-SameTracking now b) (expire_rejected-IsTracked now a v)

pub flush_all_with-IsAccounted :
    (c : Completion) (a : Assembler) → IsAccounted a → IsAccounted (flush_all_with c a).0
flush_all_with-IsAccounted c a v =
    let (gone, unheld, all) = flush_all_with-empty c a v in
    record {
      distinct = rw gone tt;
      bytes = unheld ∙ sym (ap (total (λ (p : PendingEvent). source_bytes_of p.records)) gone);
    }

operate-IsSound :
    (normalize : Bytes → Bytes) (x : Operation) (a : Assembler)
    → IsSound a
    → IsSound (operate normalize x a).0
unfolding operate
operate-IsSound normalize (add r now) a v = record {
  books = IsAccounted-after r now a (add_recovering-Accounts r now a v.books);
  bounded = add_recovering-IsBounded r now a v.bounded;
  tracked = add_recovering-IsTracked r now a v.tracked;
}
operate-IsSound normalize (reject_line prefix s now) a v = record {
  books = (reject_physical_line-Delivers normalize prefix s now a v.books).accounted;
  bounded = reject_physical_line-IsBounded normalize prefix s now a v.bounded;
  tracked = reject_physical_line-IsTracked normalize prefix s now a v.tracked;
}
operate-IsSound normalize (expire now) a v = record {
  books = (flush_expired-Delivers now a v.books).accounted;
  bounded = flush_expired-IsBounded now a v.bounded;
  tracked = flush_expired-IsTracked now a v.tracked;
}
operate-IsSound normalize (flush c) a v = record {
  books = flush_all_with-IsAccounted c a v.books;
  bounded = Shrinks-IsBounded a _ (flush_all_with-Shrinks c a) v.bounded;
  tracked = flush_all_with-IsTracked c a;
}

operate-Balances :
    (normalize : Bytes → Bytes) (w : Record → ℕ) (x : Operation) (a : Assembler)
    → SkipsEoe w
    → IsAccounted a
    → Balances w (handed x) a (operate normalize x a)
unfolding operate
operate-Balances normalize w (add r now) a skips v =
    omega (arith, add_recovering-balance w r now a skips (add_recovering-Accounts r now a v))
operate-Balances normalize w (reject_line prefix s now) a skips v =
    (reject_physical_line-Delivers normalize prefix s now a v).balance w
operate-Balances normalize w (expire now) a skips v = (flush_expired-Delivers now a v).balance w
operate-Balances normalize w (flush c) a skips v =
    let (gone, unheld, all) = flush_all_with-empty c a v in
    omega (arith, all w, ap (total (λ (p : PendingEvent). sum_by w p.records)) gone)

operate_all-Balances :
    (normalize : Bytes → Bytes) (w : Record → ℕ) (xs : List Operation) (a : Assembler)
    → SkipsEoe w
    → IsSound a
    → IsSound (operate_all normalize xs a).0
      × (held (sum_by w) (operate_all normalize xs a).0 + emitted w (operate_all normalize xs a).1
          ≡ held (sum_by w) a + sum_by (λ x. sum_by w (handed x)) xs)
unfolding operate_all
operate_all-Balances normalize w [] a skips v = (v, omega arith)
operate_all-Balances normalize w (x ∷ xs) a skips v =
    let y = operate normalize x a in
    let (sound, rest) =
      operate_all-Balances normalize w xs y.0 skips (operate-IsSound normalize x a v) in
    (
      sound,
      omega (
        arith,
        operate-Balances normalize w x a skips v.books,
        rest,
        emitted-append w y.1 (operate_all normalize xs y.0).1,
      ),
    )

-- Whatever is called in whatever order. For an assembler that `NewBoundedAssembler` made, any
-- sequence of calls of `AddRecovering`, `RejectPhysicalLine`, `FlushExpired` and `FlushAllWith`, with
-- any arguments and any payload normaliser, and any weight on records that ignores EOE records: the
-- pending and the returned events weigh together what the records handed over weigh, the byte
-- counter is exact, the pending events keep their limits, and so do the keys tracked as rejected.
pub operate_all-Conserves :
    (normalize : Bytes → Bytes) (w : Record → ℕ) (xs : List Operation) (expiry : ℕ)
    (limits : AssemblerLimits) (a : Assembler)
    → SkipsEoe w
    → new_bounded_assembler expiry limits ≡ some a
    → IsSound (operate_all normalize xs a).0
      × (held (sum_by w) (operate_all normalize xs a).0 + emitted w (operate_all normalize xs a).1
          ≡ sum_by (λ x. sum_by w (handed x)) xs)
operate_all-Conserves normalize w xs expiry limits a skips h =
    let (books, bounded, tracked, empty) = new-IsReady expiry limits a h in
    let (sound, moved) =
      operate_all-Balances normalize w xs a skips
        (record { books = books; bounded = bounded; tracked = tracked }) in
    (sound, omega (arith, moved, empty (sum_by w)))
