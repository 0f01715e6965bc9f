-- ===== src/Collector/Window.antt =====
-- The ledger of source gaps stays valid: what `GapLedger.Validate` of recovery.go accepts, `prepare`
-- and `commit` of gap_recovery.go leave acceptable.
use aesirguard_audit.Base.{
  ℕ, zero, suc, ◌+◌, ◌-◌, ◌^◌, ◌≤◌, ◌<◌, Bool, true, false, List, [], ◌∷◌, ◌++◌, Option, none, some,
  Bytes, bytes_equality, ◌≡◌, refl, ap, ◌⊎◌, ◌∙◌, arith, length, length-append, drop,
}
use aesirguard_audit.Collector.Ledger.{
  GapIncident, LedgerError, or_error, follows, is_more, well_formed, check_incident,
  check_incidents, last_incident,
}
use aesirguard_audit.Collector.Recovery.{map_last, supersede, complete, recent}

-- The number that the next incident has to follow.
abbrev pub number_of : Option GapIncident → Option ℕ → Option ℕ
number_of none before = before
number_of (some g) before = some g.number

pub both : (e f : Option LedgerError) → e ≡ none → f ≡ none → or_error e f ≡ none
both none f h k = k
both (some e) f h k = ground arith

pub parts : (e f : Option LedgerError) → or_error e f ≡ none → (e ≡ none) × (f ≡ none)
parts none f h = (refl, h)
parts (some e) f h = ground arith

-- One incident against a larger total, and with its preparation taken back.
check_incident-supersede :
    (input : Bytes) (total : ℕ) (before : Option ℕ) (more : Bool) (g : GapIncident)
    → check_incident input total before more g ≡ none
    → check_incident input (total + 1) before true (supersede g) ≡ none
unfolding check_incident well_formed supersede
check_incident-supersede input total before more g h = ground (arith, h)

check_incident-later :
    (input : Bytes) (total : ℕ) (before : Option ℕ) (g : GapIncident)
    → check_incident input total before true g ≡ none
    → check_incident input (total + 1) before true g ≡ none
unfolding check_incident well_formed
check_incident-later input total before g h = ground (arith, h)

check_incident-first :
    (input : Bytes) (total : ℕ) (before : Option ℕ) (more : Bool) (g : GapIncident)
    → check_incident input total before more g ≡ none
    → check_incident input total none more g ≡ none
unfolding check_incident well_formed
check_incident-first input total before more g h = ground (arith, h)

pub check_incident-complete :
    (input : Bytes) (total : ℕ) (before : Option ℕ) (more : Bool) (g : GapIncident)
    → check_incident input total before more g ≡ none
    → check_incident input total before more (complete g) ≡ none
unfolding check_incident well_formed complete
check_incident-complete input total before more g h = ground (arith, h)

supersede-number : (g : GapIncident) → (supersede g).number ≡ g.number
unfolding supersede
supersede-number g = ground arith

is_more-append : (gs : List GapIncident) (g : GapIncident) → is_more (gs ++ g ∷ []) ≡ true
is_more-append [] g = refl
is_more-append (x ∷ gs) g = refl

number_of-any :
    (x : GapIncident) (gs : List GapIncident) (b c : Option ℕ)
    → number_of (last_incident (x ∷ gs)) b ≡ number_of (last_incident (x ∷ gs)) c
unfolding last_incident
number_of-any x [] b c = refl
number_of-any x (y ∷ gs) b c = number_of-any y gs b c

-- A valid run of incidents, and one more behind it.
pub check_incidents-append :
    (input : Bytes) (total : ℕ) (before : Option ℕ) (gs : List GapIncident) (n : GapIncident)
    → check_incidents input total before gs ≡ none
    → check_incident input (total + 1) (number_of (last_incident gs) before) false n ≡ none
    → check_incidents input (total + 1) before (map_last supersede gs ++ n ∷ []) ≡ none
unfolding check_incidents map_last last_incident
check_incidents-append input total before [] n h k = both _ none k refl
check_incidents-append input total before (g ∷ []) n h k =
    both _ _ (check_incident-supersede input total before false g (parts _ none h).0)
      (both _ none (rw (supersede-number g) k) refl)
check_incidents-append input total before (g ∷ x ∷ gs) n h k =
    both _ _
      (rw (is_more-append (map_last supersede (x ∷ gs)) n)
        (check_incident-later input total before g (parts _ _ h).0))
      (check_incidents-append input total (some g.number) (x ∷ gs) n (parts _ _ h).1
        (rw (number_of-any x gs (some g.number) before) k))

check_incidents-first :
    (input : Bytes) (total : ℕ) (before : Option ℕ) (gs : List GapIncident)
    → check_incidents input total before gs ≡ none
    → check_incidents input total none gs ≡ none
unfolding check_incidents
check_incidents-first input total before [] h = refl
check_incidents-first input total before (g ∷ gs) h =
    both _ _ (check_incident-first input total before (is_more gs) g (parts _ _ h).0)
      (parts _ _ h).1

-- The older incidents can be dropped.
pub check_incidents-drop :
    (input : Bytes) (total n : ℕ) (gs : List GapIncident)
    → check_incidents input total none gs ≡ none
    → check_incidents input total none (drop n gs) ≡ none
unfolding check_incidents
check_incidents-drop input total zero gs h = h
check_incidents-drop input total (suc n) [] h = refl
check_incidents-drop input total (suc n) (g ∷ gs) h =
    check_incidents-drop input total n gs
      (check_incidents-first input total (some g.number) gs (parts _ _ h).1)

last_incident-append :
    (gs : List GapIncident) (n : GapIncident) → last_incident (gs ++ n ∷ []) ≡ some n
unfolding last_incident
last_incident-append [] n = refl
last_incident-append (g ∷ []) n = refl
last_incident-append (g ∷ x ∷ gs) n = last_incident-append (x ∷ gs) n

last_incident-drop :
    (n : ℕ) (gs : List GapIncident) → n < length gs → last_incident (drop n gs) ≡ last_incident gs
unfolding last_incident
last_incident-drop zero gs h = refl
last_incident-drop (suc n) [] h = refl
last_incident-drop (suc n) (g ∷ []) h = ground (arith, h)
last_incident-drop (suc n) (g ∷ x ∷ gs) h = last_incident-drop n (x ∷ gs) (omega (arith, h))

length-drop : (n : ℕ) (gs : List GapIncident) → length (drop n gs) ≡ length gs - n
length-drop zero gs = omega arith
length-drop (suc n) [] = omega arith
length-drop (suc n) (g ∷ gs) = omega (arith, length-drop n gs)

pub length-map_last :
    (f : GapIncident → GapIncident) (gs : List GapIncident) → length (map_last f gs) ≡ length gs
unfolding map_last
length-map_last f [] = refl
length-map_last f (g ∷ []) = refl
length-map_last f (g ∷ x ∷ gs) = ap suc (length-map_last f (x ∷ gs))

-- The number behind the last one, up to the end of uint64.
pub follows-next :
    (total : ℕ) (o : Option ℕ)
    → total < 2 ^ 64 - 1
    → (o ≡ some total) ⊎ (o ≡ none)
    → follows o (total + 1) ≡ true
follows-next total none h k = refl
follows-next total (some m) h k = ground (arith, h, k)

-- The window that `recent` keeps ends in the incident added, and holds at most eight.
pub recent-append :
    (f : GapIncident → GapIncident) (gs : List GapIncident) (n : GapIncident)
    → (last_incident (recent (map_last f gs ++ n ∷ [])) ≡ some n)
      × (0 < length (recent (map_last f gs ++ n ∷ [])))
      × (length (recent (map_last f gs ++ n ∷ [])) ≤ 8)
unfolding recent
recent-append f gs n =
    let all = map_last f gs ++ n ∷ [] in
    let many = length-append (map_last f gs) (n ∷ []) in
    (
      last_incident-drop (length all - 8) all (omega (arith, many))
          ∙ last_incident-append (map_last f gs) n,
      omega (arith, many, length-drop (length all - 8) all),
      omega (arith, many, length-drop (length all - 8) all),
    )
