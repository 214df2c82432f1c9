-- ===== src/QueueLab/Registry/Agreed.antt =====
-- When a registry resolves a name.
use gpu_platform_control_pla.Base.{
  ◌≡◌, ◌≢◌, ◌↔◌, refl, sym, ◌∙◌, Bool, true, false, not, ◌&&◌, ◌||◌, Option, none, some, List, [],
  ◌∷◌, if◌then◌else◌, arith, All, any, Bool-cases, inl, inr,
}
use gpu_platform_control_pla.Base.Text.{Text, text_eq, text_eq_iff}
use gpu_platform_control_pla.Base.Maps.{Map, lookup, lookup-insert}
use gpu_platform_control_pla.QueueLab.Registry.{registry_key, noted, note, or_empty, resolve}

-- A Pod that was observed.
pub record Sighting : Type 0 where
  pub namespace : Text
  pub name : Text
  pub uid : Text

unfoldable pub note_all : Map Text → List Sighting → Map Text
note_all by_name [] = by_name
note_all by_name (s ∷ ss) = note_all (note by_name s.namespace s.name s.uid) ss

-- The sighting has a name and a UID, and stands under the key.
unfoldable pub counts_for : Text → Sighting → Bool
counts_for key s =
    not (text_eq s.name [] || text_eq s.uid []) && text_eq (registry_key s.namespace s.name) key

-- What the key holds after one more sighting.
unfoldable pub held_after : Text → Option Text → Sighting → Option Text
held_after key held s = if counts_for key s then some (noted held s.uid) else held

lookup-note :
    (key : Text) (by_name : Map Text) (s : Sighting)
    → lookup key (note by_name s.namespace s.name s.uid) ≡ held_after key (lookup key by_name) s
unfolding note held_after counts_for
lookup-note key by_name s =
    let here = registry_key s.namespace s.name in
    ground (
      arith,
      lookup-insert here key (noted (lookup here by_name) s.uid) by_name,
      text_eq_iff here key,
    )

held_from : Text → Option Text → List Sighting → Option Text
held_from key held [] = held
held_from key held (s ∷ ss) = held_from key (held_after key held s) ss

lookup-note_all :
    (key : Text) (by_name : Map Text) (ss : List Sighting)
    → lookup key (note_all by_name ss) ≡ held_from key (lookup key by_name) ss
unfolding note_all held_from
lookup-note_all key by_name [] = refl
lookup-note_all key by_name (s ∷ ss) =
    lookup-note_all key (note by_name s.namespace s.name s.uid) ss
    ∙ rw (lookup-note key by_name s) refl

-- All the sightings that count have the UID.
abbrev pub AllAgree : Text → Text → List Sighting → Type 0
AllAgree key uid ss = All (λ s. counts_for key s ≡ true → s.uid ≡ uid) ss

-- One sighting more, by what it says.
held_after-other :
    (key : Text) (held : Option Text) (s : Sighting)
    → counts_for key s ≡ false
    → held_after key held s ≡ held
unfolding held_after
held_after-other key held s other = rw other refl

held_after-same :
    (key seen : Text) (s : Sighting)
    → text_eq seen s.uid ≡ true
    → held_after key (some seen) s ≡ some seen
unfolding held_after noted
held_after-same key seen s same = ground arith

held_after-clash :
    (key seen : Text) (s : Sighting)
    → counts_for key s ≡ true
    → text_eq seen s.uid ≡ false
    → held_after key (some seen) s ≡ some []
unfolding held_after noted
held_after-clash key seen s counts clash = rw (counts, clash) refl

held_after-first :
    (key : Text) (s : Sighting) → counts_for key s ≡ true → held_after key none s ≡ some s.uid
unfolding held_after noted
held_after-first key s counts = rw counts refl

counts_for-named : (key : Text) (s : Sighting) → counts_for key s ≡ true → s.uid ≢ []
unfolding counts_for
counts_for-named key s counts empty =
    let no_uid = (text_eq_iff s.uid []).1 empty in absurd (ground arith)

-- A key that is ambiguous stays so.
held_after-ambiguous : (key : Text) (s : Sighting) → held_after key (some []) s ≡ some []
unfolding held_after noted
held_after-ambiguous key s = ground arith

held_from-ambiguous : (key : Text) (ss : List Sighting) → held_from key (some []) ss ≡ some []
unfolding held_from
held_from-ambiguous key [] = refl
held_from-ambiguous key (s ∷ ss) = rw (held_after-ambiguous key s) (held_from-ambiguous key ss)

held_from-some :
    (key seen uid : Text) (ss : List Sighting)
    → uid ≢ []
    → (held_from key (some seen) ss ≡ some uid) ↔ ((seen ≡ uid) × AllAgree key uid ss)
unfolding held_from
held_from-some key seen uid [] named = ((λ h. (cc, tt)), (λ h. let e = h.0 in cc))
held_from-some key seen uid (s ∷ ss) named =
    let rest = held_from-some key seen uid ss named in
    elim (Bool-cases (counts_for key s)) [
      | inr other ↦
          rw (held_after-other key (some seen) s other) (
            (λ h. let r = rest.0 h in (r.0, ((λ c. absurd (cc)), r.1))),
            (λ h. rest.1 (h.0, h.1.1)),
          )
      | inl counts ↦ elim (Bool-cases (text_eq seen s.uid)) [
        | inl same ↦
            let seen_it = (text_eq_iff seen s.uid).0 same in
            rw (held_after-same key seen s same) (
              (λ h. let r = rest.0 h in (r.0, ((λ c. sym seen_it ∙ r.0), r.1))),
              (λ h. rest.1 (h.0, h.1.1)),
            )
        | inr clash ↦
            rw (held_after-clash key seen s counts clash, held_from-ambiguous key ss)
              (
                (λ h. absurd (named (cc))),
                (λ h. let e = (text_eq_iff seen s.uid).1 (h.0 ∙ sym (h.1.0 counts)) in absurd (cc)),
              )
      ]
    ]

held_from-none :
    (key uid : Text) (ss : List Sighting)
    → uid ≢ []
    → (held_from key none ss ≡ some uid) ↔ ((any (counts_for key) ss ≡ true) × AllAgree key uid ss)
unfolding held_from
held_from-none key uid [] named = ((λ h. absurd (cc)), (λ h. let e = h.0 in absurd (cc)))
held_from-none key uid (s ∷ ss) named = elim (Bool-cases (counts_for key s)) [
  | inr other ↦
      let rest = held_from-none key uid ss named in
      rw (held_after-other key none s other, other)
        ((λ h. let r = rest.0 h in (r.0, ((λ c. absurd (cc)), r.1))), (λ h. rest.1 (h.0, h.1.1)))
  | inl counts ↦
      let rest = held_from-some key s.uid uid ss named in
      rw (held_after-first key s counts, counts)
        ((λ h. let r = rest.0 h in (refl, ((λ c. r.0), r.1))), (λ h. rest.1 (h.1.0 refl, h.1.1)))
]

or_empty-eq :
    (held : Option Text) (uid : Text) → uid ≢ [] → (or_empty held ≡ uid) ↔ (held ≡ some uid)
or_empty-eq none uid named = ((λ h. absurd (named (sym h))), (λ h. absurd (cc)))
or_empty-eq (some seen) uid named = ((λ h. cc), (λ h. cc))

-- A registry that saw any Pods in any order resolves a name to a UID exactly when some sighting
-- that has a name and a UID stands under the name's key, and every such sighting has that UID.
pub resolves_iff_agreed :
    (sightings : List Sighting) (namespace name uid : Text)
    → uid ≢ []
    → (resolve (note_all [] sightings) namespace name ≡ uid) ↔ (
        (any (counts_for (registry_key namespace name)) sightings ≡ true)
        × AllAgree (registry_key namespace name) uid sightings)
unfolding resolve lookup
resolves_iff_agreed sightings namespace name uid named =
    let key = registry_key namespace name in
    let seen = or_empty-eq (lookup key (note_all [] sightings)) uid named in
    let found = lookup-note_all key [] sightings in
    let agreed = held_from-none key uid sightings named in
    ((λ h. agreed.0 (sym found ∙ seen.0 h)), (λ h. seen.1 (found ∙ agreed.1 h)))
