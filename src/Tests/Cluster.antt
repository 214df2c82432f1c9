-- ===== src/Tests/Cluster.antt =====
-- A concrete API: equality of statuses field by field, one condition per object, finalizers as a list.
use gpu_platform_control_pla.Base.{
  ℕ, ◌≡◌, refl, sym, ◌∙◌, ap, Bool, true, false, ◌&&◌, &&_true, ==_iff, List, [], ◌∷◌, Option, none,
  some, ◌==◌, if◌then◌else◌, arith,
}
use gpu_platform_control_pla.Base.Text.{Text, text_eq, text_eq_iff, text_eq_refl}
use gpu_platform_control_pla.Controller.Objects.{
  ConditionStatus, is_true, is_false, is_unknown, Condition, FaultSignal, NodeHealthStatus,
}
use gpu_platform_control_pla.Controller.Api.{Api}

code_of : ConditionStatus → ℕ
code_of is_true = 0
code_of is_false = 1
code_of is_unknown = 2

code_same : (a b : ConditionStatus) → code_of a ≡ code_of b → a ≡ b
unfolding code_of
code_same is_true is_true h = refl
code_same is_true is_false h = absurd (omega (arith, h))
code_same is_true is_unknown h = absurd (omega (arith, h))
code_same is_false is_true h = absurd (omega (arith, h))
code_same is_false is_false h = refl
code_same is_false is_unknown h = absurd (omega (arith, h))
code_same is_unknown is_true h = absurd (omega (arith, h))
code_same is_unknown is_false h = absurd (omega (arith, h))
code_same is_unknown is_unknown h = refl

-- A Boolean test that decides equality.
pub record Test (A : Type 0) : Type 0 where
  pub same : A → A → Bool
  pub sound : (a b : A) → same a b ≡ true → a ≡ b
  pub complete : (a : A) → same a a ≡ true

both : (a b : Bool) → a ≡ true → b ≡ true → (a && b) ≡ true
both a b h k = ground arith

pub text_test : Test Text
text_test = record { same = text_eq; sound = λ a b. (text_eq_iff a b).0; complete = text_eq_refl }

pub number_test : Test ℕ
number_test = record {
  same = λ a b. a == b;
  sound = λ a b. (==_iff a b).0;
  complete = λ a. (==_iff a a).1 refl;
}

status_test : Test ConditionStatus
status_test = record {
  same = λ a b. code_of a == code_of b;
  sound = λ a b h. code_same a b ((==_iff (code_of a) (code_of b)).0 h);
  complete = λ a. (==_iff (code_of a) (code_of a)).1 refl;
}

module _ {A B : Type 0} (s : Test A) (t : Test B) where
  pair_same : A × B → A × B → Bool
  pair_same (a, b) (c, d) = s.same a c && t.same b d

  pub pair_test : Test (A × B)
  unfolding pair_same
  pair_test = record {
    same = pair_same;
    sound = λ p q h.
        let (k, l) = &&_true (s.same p.0 q.0) (t.same p.1 q.1) h in
        λ i. (s.sound p.0 q.0 k i, t.sound p.1 q.1 l i);
    complete = λ p. both (s.same p.0 p.0) (t.same p.1 p.1) (s.complete p.0) (t.complete p.1);
  }

module _ {A : Type 0} (s : Test A) where
  list_same : List A → List A → Bool
  list_same [] [] = true
  list_same [] (y ∷ ys) = false
  list_same (x ∷ xs) [] = false
  list_same (x ∷ xs) (y ∷ ys) = s.same x y && list_same xs ys

  list_sound : (xs ys : List A) → list_same xs ys ≡ true → xs ≡ ys
  unfolding list_same
  list_sound [] [] h = refl
  list_sound [] (y ∷ ys) h = absurd (cc)
  list_sound (x ∷ xs) [] h = absurd (cc)
  list_sound (x ∷ xs) (y ∷ ys) h =
      let (k, l) = &&_true (s.same x y) (list_same xs ys) h in
      λ i. s.sound x y k i ∷ list_sound xs ys l i

  list_complete : (xs : List A) → list_same xs xs ≡ true
  unfolding list_same
  list_complete [] = refl
  list_complete (x ∷ xs) = both (s.same x x) (list_same xs xs) (s.complete x) (list_complete xs)

  pub list_test : Test (List A)
  list_test = record { same = list_same; sound = list_sound; complete = list_complete }

  of_option : Option A → List A
  of_option none = []
  of_option (some a) = a ∷ []

  option_sound : (a b : Option A) → of_option a ≡ of_option b → a ≡ b
  unfolding of_option
  option_sound none none h = refl
  option_sound none (some b) h = absurd (cc)
  option_sound (some a) none h = absurd (cc)
  option_sound (some a) (some b) h = cc

-- A test carried back along a map that has an inverse on its left.
module _ {A B : Type 0} (f : A → B) (back : B → A) (left : (a : A) → back (f a) ≡ a)
    (t : Test B) where
  pub along : Test A
  along = record {
    same = λ a b. t.same (f a) (f b);
    sound = λ a b h. sym (left a) ∙ (ap back (t.sound (f a) (f b) h) ∙ left b);
    complete = λ a. t.complete (f a);
  }

option_back : {A : Type 0} → List A → Option A
option_back [] = none
option_back (x ∷ xs) = some x

option_left : {A : Type 0} (a : Option A) → option_back (elim a [ none ↦ [] | some x ↦ x ∷ [] ]) ≡ a
unfolding option_back
option_left none = refl
option_left (some x) = refl

pub option_test : {A : Type 0} → Test A → Test (Option A)
option_test t =
    along (λ a. elim a [ none ↦ [] | some x ↦ x ∷ [] ]) option_back option_left (list_test t)

pub condition_test : Test Condition
condition_test =
    along
      (λ c. (
        c.kind,
        (c.status, (c.reason, (c.message, (c.observed_generation, c.last_transition_time)))),
      ))
      (λ (k, (s, (r, (m, (g, t))))). record {
        kind = k;
        status = s;
        reason = r;
        message = m;
        observed_generation = g;
        last_transition_time = t;
      })
      (λ c. refl)
      (pair_test text_test (
        pair_test status_test
          (pair_test text_test (pair_test text_test (pair_test number_test number_test)))))

fault_test : Test FaultSignal
fault_test =
    along (λ c. (c.source, c.code)) (λ (s, k). record { source = s; code = k }) (λ c. refl)
      (pair_test text_test text_test)

pub health_test : Test NodeHealthStatus
health_test =
    along
      (λ s. (
        s.phase,
        (s.observed_generation, (s.fault_signal, (s.last_transition_time, s.conditions))),
      ))
      (λ (p, (g, (f, (t, c)))). record {
        phase = p;
        observed_generation = g;
        fault_signal = f;
        last_transition_time = t;
        conditions = c;
      })
      (λ s. refl)
      (pair_test text_test (
        pair_test number_test (
          pair_test (option_test fault_test)
            (pair_test (option_test number_test) (list_test condition_test)))))

-- Whether the text is listed.
unfoldable pub listed : Text → List Text → Bool
listed f [] = false
listed f (g ∷ gs) = let rest = listed f gs in if text_eq f g then true else rest

unfoldable pub without : Text → List Text → List Text
without f [] = []
without f (g ∷ gs) = let rest = without f gs in if text_eq f g then rest else g ∷ rest

pub listed-without : (f : Text) (gs : List Text) → listed f (without f gs) ≡ false
unfolding listed without
listed-without f [] = refl
listed-without f (g ∷ gs) = ground (arith, listed-without f gs)

pub listed-first : (f : Text) (gs : List Text) → listed f (f ∷ gs) ≡ true
unfolding listed
listed-first f gs = rw (text_eq_refl f) refl

abbrev pub example_api : Api
example_api = record {
  set_status_condition = λ c t cs. c ∷ [];
  set_again = λ c t u cs. refl;
  deep_equal = health_test.same;
  deep_equal_same = health_test.sound;
  deep_equal_refl = health_test.complete;
  contains_finalizer = listed;
  add_finalizer = λ f fs. f ∷ fs;
  remove_finalizer = without;
  contains-add = listed-first;
  contains-remove = listed-without;
  merge_patch = λ base changed stored. changed;
  merge_replaces = λ base changed stored d. refl;
  updated = λ n. some n;
  updated-kept = λ n k. refl;
}
