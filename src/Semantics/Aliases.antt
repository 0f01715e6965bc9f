-- ===== src/Semantics/Aliases.antt =====
-- The second loop of `markSingletonConflicts` of conflicts.go: what conflicts of a record it leaves.
use aesirguard_audit.Base.{
  Bool, true, false, ◌||◌, List, [], ◌∷◌, ◌==◌, Bytes, bytes_equality, ◌≡◌, refl, ap, sym, ◌∙◌, inl,
  ◌&&◌, inr, arith, codes, map, ◌-◌, All, Bool-cases, bytes_eq_iff, bytes_eq,
}
use aesirguard_audit.Record.{Record}
use aesirguard_audit.Assembler.Types.{contains_string}
use aesirguard_audit.Semantics.Conflicts.{
  mark_key, mark_all, spread_alias, spread_aliases, interpreted_aliases, settle_record,
}

contains_string-found :
    (keys : List Bytes) (k x : Bytes)
    → contains_string keys k ≡ true
    → contains_string keys x ≡ (k == x || contains_string keys x)
contains_string-found keys k x h = elim (Bool-cases (k == x)) [
  | inl same ↦ rw same (ap (contains_string keys) (sym ((bytes_eq_iff k x).0 same)) ∙ h)
  | inr other ↦ rw other refl
]

contains_string-mark_key :
    (k : Bytes) (keys : List Bytes) (x : Bytes)
    → contains_string (mark_key k keys) x ≡ (k == x || contains_string keys x)
unfolding mark_key contains_string
contains_string-mark_key k keys x = elim (Bool-cases (contains_string keys k)) [
  | inl there ↦ rw there (contains_string-found keys k x there)
  | inr new ↦ rw new refl
]

contains_string-mark_all :
    (more keys : List Bytes) (x : Bytes)
    → contains_string (mark_all more keys) x ≡ (contains_string more x || contains_string keys x)
unfolding mark_all contains_string
contains_string-mark_all [] keys x = refl
contains_string-mark_all (k ∷ more) keys x =
    ground
      (arith, contains_string-mark_all more (mark_key k keys) x, contains_string-mark_key k keys x)

contains_string-spread_alias :
    (keys : List Bytes) (a b x : Bytes)
    → contains_string (spread_alias keys (a, b)) x ≡ (
        contains_string keys x
        || ((contains_string keys a || contains_string keys b) && (a == x || b == x)))
unfolding spread_alias
contains_string-spread_alias keys a b x =
    ground
      (arith, contains_string-mark_key a keys x, contains_string-mark_key b (mark_key a keys) x)

-- The pairs do not name a key.
abbrev Without : Bytes → List (Bytes × Bytes) → Type 0
Without x = All (λ (p : Bytes × Bytes). ((p.0 == x) ≡ false) × ((p.1 == x) ≡ false))

-- No two pairs share a key.
abbrev Apart : List (Bytes × Bytes) → Type 0
Apart [] = Unit
Apart ((a, b) ∷ ps) = Without a ps × Without b ps × Apart ps

-- The keys that some pair brings in, from what is in conflict already.
abbrev brought_in : (Bytes → Bool) → Bytes → List (Bytes × Bytes) → Bool
brought_in known x [] = false
brought_in known x ((a, b) ∷ ps) =
    ((a == x || b == x) && (known a || known b)) || brought_in known x ps

apart : (a b : Bytes) → (a == b) ≡ false → (b == a) ≡ false
apart a b h = ground (arith, h, bytes_eq_iff a b, bytes_eq_iff b a)

brought_in-apart :
    (keys : List Bytes) (a b x : Bytes) (ps : List (Bytes × Bytes))
    → Without a ps
    → Without b ps
    → brought_in (contains_string (spread_alias keys (a, b))) x ps
      ≡ brought_in (contains_string keys) x ps
brought_in-apart keys a b x [] h k = refl
brought_in-apart keys a b x ((c, d) ∷ ps) h k =
    let first : contains_string (spread_alias keys (a, b)) c ≡ contains_string keys c =
      ground (arith, contains_string-spread_alias keys a b c, apart c a h.0.0, apart c b k.0.0) in
    let second : contains_string (spread_alias keys (a, b)) d ≡ contains_string keys d =
      ground (arith, contains_string-spread_alias keys a b d, apart d a h.0.1, apart d b k.0.1) in
    rw (first, second, brought_in-apart keys a b x ps h.1 k.1) refl

spread_aliases-brought_in :
    (ps : List (Bytes × Bytes)) (keys : List Bytes) (x : Bytes)
    → Apart ps
    → contains_string (spread_aliases ps keys) x
      ≡ (contains_string keys x || brought_in (contains_string keys) x ps)
unfolding spread_aliases
spread_aliases-brought_in [] keys x h = ground arith
spread_aliases-brought_in ((a, b) ∷ ps) keys x h = ground (
  arith,
  spread_aliases-brought_in ps (spread_alias keys (a, b)) x h.2,
  brought_in-apart keys a b x ps h.0 h.1,
  contains_string-spread_alias keys a b x,
)

interpreted_aliases-Apart : Apart interpreted_aliases
unfolding bytes_eq
interpreted_aliases-Apart = ground arith

-- The fields that auditd repeats in its interpretation.
abbrev pub repeated_names : List Bytes
repeated_names =
    codes "auid"
    ∷ codes "uid"
    ∷ codes "euid"
    ∷ codes "ouid"
    ∷ codes "ogid"
    ∷ codes "arch"
    ∷ codes "syscall"
    ∷ []

-- The repeated field has the name in capitals.
abbrev pub in_capitals : Bytes → Bytes
in_capitals = map (λ c. c - 32)

aliases-are : interpreted_aliases ≡ map (λ k. (k, in_capitals k)) repeated_names
aliases-are = refl

-- A key is carried over if it is one of the names or one in capitals, and either of the two is
-- among the keys known to be in conflict.
abbrev pub carried_over : (Bytes → Bool) → Bytes → List Bytes → Bool
carried_over known key [] = false
carried_over known key (k ∷ ks) =
    ((k == key || in_capitals k == key) && (known k || known (in_capitals k)))
    || carried_over known key ks

-- In conflict across the event or in the record.
abbrev pub disputed : List Bytes → Record → Bytes → Bool
disputed global r key = contains_string global key || contains_string r.conflicts key

brought_in-names :
    (f g : Bytes → Bool) (x : Bytes) (names : List Bytes)
    → ((key : Bytes) → f key ≡ g key)
    → brought_in f x (map (λ k. (k, in_capitals k)) names) ≡ carried_over g x names
brought_in-names f g x [] h = refl
brought_in-names f g x (k ∷ ks) h = rw (h k, h (in_capitals k), brought_in-names f g x ks h) refl

-- What the second loop leaves in conflict in a record: exactly the keys in conflict across the event
-- or in the record, and, of a field that auditd repeats in its interpretation, `auid`, `uid`, `euid`,
-- `ouid`, `ogid`, `arch` or `syscall`, and the repeated one, which has the name in capitals, both if
-- either was.
pub settle_record-disputed :
    (global : List Bytes) (r : Record) (key : Bytes)
    → contains_string (settle_record global r).conflicts key
      ≡ (disputed global r key || carried_over (disputed global r) key repeated_names)
unfolding settle_record
settle_record-disputed global r key =
    let marked = mark_all global r.conflicts in
    let exact = contains_string-mark_all global r.conflicts in
    spread_aliases-brought_in interpreted_aliases marked key interpreted_aliases-Apart
    ∙ rw (exact key) refl
    ∙ ap (λ b. disputed global r key || b)
        (brought_in-names (contains_string marked) (disputed global r) key repeated_names exact)
