-- ===== src/Parser/Agreement.antt =====
-- What a successful `ParseRecord` of parser.go says about the fields of its line.
use aesirguard_audit.Base.{
  ℕ, suc, true, false, ◌&&◌, ◌||◌, not, List, [], ◌∷◌, none, some, ◌≡◌, ◌≢◌, refl, sym, ◌∙◌, ◌⊎◌,
  inl, inr, arith, Bytes, bytes_equality, bytes_eq_iff, codes, ◌==◌, nat_eq, length, All,
  Bool-cases, if◌then◌else◌,
}
use mathlib.Core.Path.{subst}
use aesirguard_audit.Record.{Record, Field}
use aesirguard_audit.Parser.Text.{valid_utf8}
use aesirguard_audit.Parser.Fields.{Result, ok, err, ◌>>=◌, Parsed, parse_fields}
use aesirguard_audit.Parser.Values.{first_value}
use aesirguard_audit.Parser.Envelope.{
  RecordError, id_of_field, Envelope, note_id, find_envelope, Node, is_node, note_node, check_field,
  check_fields, node_text, node_there, finish_record, record_of_fields, lift_fields, parse_record,
  normalize_known_record_syntax,
}

-- The chain of results, taken apart.
bind-ok :
    {A : Type 0} {B : Type 0} (x : Result RecordError A) (f : A → Result RecordError B) (b : B)
    → (x >>= f) ≡ ok b
    → (a : A) × (x ≡ ok a) × (f a ≡ ok b)
bind-ok (ok a) f b h = (a, refl, h)
bind-ok (err e) f b h = ground (arith, h)

-- The ID that a field carries, if it carries one, is this one.
abbrev pub HasId : Bytes → Field → Type 0
HasId id f = (id_of_field f ≡ []) ⊎ (id_of_field f ≡ id)

abbrev EnvelopeId : Envelope → Bytes → Type 0
EnvelopeId none id = Unit
EnvelopeId (some (_, old)) id = old ≡ id

note_id-agrees :
    (i : ℕ) (new : Bytes) (e f : Envelope) (id : Bytes)
    → note_id i new e ≡ ok f
    → EnvelopeId f id
    → ((new ≡ []) ⊎ (new ≡ id)) × EnvelopeId e id
unfolding note_id
note_id-agrees i [] none f id h g = (inl refl, tt)
note_id-agrees i [] (some (j, old)) none id h g = ground (arith, h)
note_id-agrees i [] (some (j, old)) (some (k, kept)) id h g = (inl refl, ground (arith, h, g))
note_id-agrees i (c ∷ cs) none none id h g = ground (arith, h)
note_id-agrees i (c ∷ cs) none (some (k, kept)) id h g = (inr (ground (arith, h, g)), tt)
note_id-agrees i (c ∷ cs) (some (j, old)) none id h g = ground (arith, h)
note_id-agrees i (c ∷ cs) (some (j, old)) (some (k, kept)) id h g =
    ground (arith, h, g, bytes_eq_iff old (c ∷ cs))

find_envelope-agrees :
    (i : ℕ) (fs : List Field) (e : Envelope) (j : ℕ) (id : Bytes)
    → find_envelope i fs e ≡ ok (some (j, id))
    → All (HasId id) fs × EnvelopeId e id
unfolding find_envelope
find_envelope-agrees i [] none j id h = ground (arith, h)
find_envelope-agrees i [] (some (k, old)) j id h = (tt, ground (arith, h))
find_envelope-agrees i (f ∷ fs) e j id h =
    let (next, noted, later) =
      bind-ok (note_id i (id_of_field f) e) (find_envelope (suc i) fs) _ h in
    let (rest, held) = find_envelope-agrees (suc i) fs next j id later in
    let (this, before) = note_id-agrees i (id_of_field f) e next id noted held in
    ((this, rest), before)

-- A field that names a type or a node names the record's.
abbrev pub NamesType : Bytes → Field → Type 0
NamesType record_type f = (f.key == codes "type") ≡ true → f.value ≡ record_type

abbrev pub NamesNode : Node → Field → Type 0
NamesNode node f = is_node f ≡ true → node ≡ some f.value

-- A node that was seen stays.
abbrev Stays : Node → Node → Type 0
Stays none after = Unit
Stays (some n) after = after ≡ some n

note_node-agrees :
    (value : Bytes) (seen after : Node)
    → note_node value seen ≡ ok after
    → (after ≡ some value) × Stays seen after
unfolding note_node
note_node-agrees value none after h = ground (arith, h)
note_node-agrees value (some n) after h = ground (arith, h, bytes_eq_iff n value)

kept :
    (seen after : Node) → ◌≡◌ {A = Result RecordError Node} (ok seen) (ok after) → Stays seen after
kept none after h = tt
kept (some n) none h = ground (arith, h)
kept (some n) (some m) h = ground (arith, h)

check_field-agrees :
    (record_type : Bytes) (f : Field) (seen after : Node)
    → check_field record_type f seen ≡ ok after
    → NamesType record_type f × NamesNode after f × Stays seen after
unfolding check_field
check_field-agrees record_type f seen after h =
    elim (Bool-cases (f.key == codes "type" && not (f.value == record_type))) [
      | inl bad ↦ ground (arith, h, bad)
      | inr good ↦
          let type_is : NamesType record_type f =
            λ is. ground (arith, good, is, bytes_eq_iff f.value record_type) in
          elim (Bool-cases (is_node f)) [
            | inl node ↦
                let (named, stays) = note_node-agrees f.value seen after (rw (good, node) at h) in
                (type_is, (λ _. named), stays)
            | inr other ↦ (
              type_is,
              (λ is. ground (arith, is, other)),
              kept seen after (rw (good, other) at h),
            )
          ]
    ]

Stays-NamesNode :
    (seen after : Node) (f : Field) → NamesNode seen f → Stays seen after → NamesNode after f
Stays-NamesNode none after f names stays is = cc (names is)
Stays-NamesNode (some n) after f names stays is = stays ∙ names is

Stays-trans : (a b c : Node) → Stays a b → Stays b c → Stays a c
Stays-trans none b c s t = tt
Stays-trans (some n) none c s t = cc s
Stays-trans (some n) (some m) c s t = t ∙ s

check_fields-agree :
    (record_type : Bytes) (fs : List Field) (seen after : Node)
    → check_fields record_type fs seen ≡ ok after
    → All (NamesType record_type) fs × All (NamesNode after) fs × Stays seen after
unfolding check_fields
check_fields-agree record_type [] seen after h = (tt, tt, kept seen after h)
check_fields-agree record_type (f ∷ fs) seen after h =
    let (next, checked, later) =
      bind-ok (check_field record_type f seen) (check_fields record_type fs) after h in
    let (type_is, node_is, stays) = check_field-agrees record_type f seen next checked in
    let (types, nodes, still) = check_fields-agree record_type fs next after later in
    (
      (type_is, types),
      (Stays-NamesNode next after f node_is still, nodes),
      Stays-trans seen next after stays still,
    )

-- An envelope's ID is never empty.
abbrev IsGiven : Envelope → Type 0
IsGiven none = Unit
IsGiven (some (_, id)) = id ≢ []

note_id-IsGiven :
    (i : ℕ) (new : Bytes) (e f : Envelope) → note_id i new e ≡ ok f → IsGiven e → IsGiven f
unfolding note_id
note_id-IsGiven i new e none h g = tt
note_id-IsGiven i [] none (some f) h g = ground (arith, h)
note_id-IsGiven i [] (some e) (some f) h g = ground (arith, h, g)
note_id-IsGiven i (c ∷ cs) none (some f) h g = ground (arith, h)
note_id-IsGiven i (c ∷ cs) (some e) (some f) h g = ground (arith, h, g)

find_envelope-IsGiven :
    (i : ℕ) (fs : List Field) (e f : Envelope) → find_envelope i fs e ≡ ok f → IsGiven e → IsGiven f
unfolding find_envelope
find_envelope-IsGiven i [] e f h g = subst IsGiven (same_ok e f h) g
  where
    same_ok : (x y : Envelope) → ◌≡◌ {A = Result RecordError Envelope} (ok x) (ok y) → x ≡ y
    same_ok x y h = ground (arith, h)
find_envelope-IsGiven i (x ∷ fs) e f h g =
    let (next, noted, later) =
      bind-ok (note_id i (id_of_field x) e) (find_envelope (suc i) fs) f h in
    find_envelope-IsGiven (suc i) fs next f later (note_id-IsGiven i (id_of_field x) e next noted g)

-- The node of a record, if it has one.
abbrev pub node_of : Record → Node
node_of r = if r.node_present then some r.node else none

-- A record as its line states it.
pub record IsAgreed (line : Bytes) (r : Record) : Type 0 where
  pub id_given : r.id ≢ []
  pub type_given : r.record_type ≢ []
  pub text : (valid_utf8 r.record_type ≡ true) × (valid_utf8 r.id ≡ true)
  pub ids : All (HasId r.id) r.all_fields
  pub types : All (NamesType r.record_type) r.all_fields
  pub nodes : All (NamesNode (node_of r)) r.all_fields
  pub whole : (r.raw ≡ line) × (r.source_bytes ≡ length line)

node_of-built : (seen : Node) → (if node_there seen then some (node_text seen) else none) ≡ seen
node_of-built none = refl
node_of-built (some n) = refl

ok-same : (x y : Record) → ◌≡◌ {A = Result RecordError Record} (ok x) (ok y) → x ≡ y
ok-same x y h = ground (arith, h)

not_empty : (s : Bytes) → nat_eq (length s) 0 ≡ false → s ≢ []
not_empty [] h = ground (arith, h)
not_empty (c ∷ cs) h = ground arith

finish_record-IsAgreed :
    (normalize : Bytes → Bytes) (line : Bytes) (p : Parsed) (record_type : Bytes) (seen : Node)
    (e : Envelope) (r : Record)
    → find_envelope 0 p.all none ≡ ok e
    → All (NamesType record_type) p.all × All (NamesNode seen) p.all
    → finish_record normalize line p record_type seen e ≡ ok r
    → IsAgreed line r
unfolding finish_record
finish_record-IsAgreed normalize line p record_type seen none r found names h = ground (arith, h)
finish_record-IsAgreed normalize line p record_type seen (some (j, id)) r found names h =
    elim (Bool-cases (nat_eq (length record_type) 0)) [
      | inl empty ↦ ground (arith, h, empty)
      | inr typed ↦ elim (Bool-cases (not (valid_utf8 record_type) || not (valid_utf8 id))) [
        | inl bad ↦ ground (arith, h, typed, bad)
        | inr good ↦ subst (IsAgreed line) (ok-same _ r (rw (typed, good) at h)) (record {
          id_given = find_envelope-IsGiven 0 p.all none (some (j, id)) found tt;
          type_given = not_empty record_type typed;
          text = (ground (arith, good), ground (arith, good));
          ids = (find_envelope-agrees 0 p.all none j id found).0;
          types = names.0;
          nodes = subst (λ n. All (NamesNode n) p.all) (sym (node_of-built seen)) names.1;
          whole = (refl, refl);
        })
      ]
    ]

-- A line that `ParseRecord` accepts, whatever the payload normaliser does: the record has an ID and
-- a type, both in UTF-8; every unquoted raw `msg` field that carries an ID carries this one, every
-- `type` field names this type and every raw `node` field the record's node, which is then present;
-- the raw line is kept and its length counted.
pub parse_record-IsAgreed :
    (normalize : Bytes → Bytes) (line : Bytes) (r : Record)
    → parse_record normalize line ≡ ok r
    → IsAgreed line r
unfolding parse_record record_of_fields
parse_record-IsAgreed normalize line r h =
    let (p, parsed, rest) =
      bind-ok (lift_fields (parse_fields (normalize_known_record_syntax normalize line)))
        (record_of_fields normalize line) r h in
    let record_type = first_value p.values (codes "type") in
    let (e, found, later) = bind-ok (find_envelope 0 p.all none) _ r rest in
    let (seen, checked, last) = bind-ok (check_fields record_type p.all none) _ r later in
    let (types, nodes, stays) = check_fields-agree record_type p.all none seen checked in
    finish_record-IsAgreed normalize line p record_type seen e r found (types, nodes) last
