-- ===== src/Delegation/Finding.antt =====
-- Which delegation is found, and what an accepted one does not meet.
use readyagents_core.Common.{
  refl, Bool, false, ◌<◌, ◌&&◌, eq_iff, arith, contains, ltb→lt, lt→ltb, sym, subst, ap, if_cases,
  option_cases, ltb, ◌||◌, ℕ, ◌≡◌, String, true, false, Option, none, some, List, [], ◌∷◌, ◌++◌,
  not, str_eq, inl, inr, Bool-cases, Option-cases, All, strip,
}
use readyagents_core.Delegation.Store.{
  given, in_scope, Delegation, Refusal, normalize_actor, is_active, serves, first_serving,
  find_delegation, wanted_roles, conflict, first_conflict, add_delegation, strip_scope,
}

-- A scope that is missing or empty covers every role, and any scope covers a request without roles.
pub data CoversRole (scope : Option String) (wanted : List String) : Type 0 where
  no_scope : given scope ≡ none → CoversRole scope wanted
  no_role : wanted ≡ [] → CoversRole scope wanted
  one_of_them :
      (s : String)
      → given scope ≡ some s
      → contains (normalize_actor s) wanted ≡ true
      → CoversRole scope wanted

in_scope-CoversRole :
    (scope : Option String) (wanted : List String)
    → in_scope scope wanted ≡ true
    → CoversRole scope wanted
in_scope-CoversRole scope [] = λ h. no_role refl
in_scope-CoversRole scope (role ∷ roles) =
    option_cases (λ (b : Bool). b ≡ true → CoversRole scope (role ∷ roles)) (given scope)
      (λ free h. no_scope free) (λ s set h. one_of_them s set h)

CoversRole-in_scope :
    (scope : Option String) (wanted : List String)
    → CoversRole scope wanted
    → in_scope scope wanted ≡ true
CoversRole-in_scope scope wanted (no_scope free) = rw (free, in_scope) refl
CoversRole-in_scope scope wanted (no_role free) =
    subst (λ roles. in_scope scope roles ≡ true) (sym free)
      (option_cases (λ (b : Bool). b ≡ true) (given scope) (λ _. refl) (λ s _. refl))
CoversRole-in_scope scope wanted (one_of_them s set among) =
    rw (set, among, in_scope) (ground arith)

both : (a b c : Bool) → (a && b && c) ≡ true → (a ≡ true) × (b ≡ true) × (c ≡ true)
both a b c h = (ground (arith, h), ground (arith, h), ground (arith, h))

until_later :
    (end : Option ℕ) (now : ℕ)
    → (elim end [ none ↦ false | some until ↦ ltb now until ]) ≡ true
    → (until : ℕ) × (end ≡ some until) × (now < until)
until_later none now h = absurd (cc)
until_later (some until) now h = (until, refl, ltb→lt now until h)

-- A delegation to an actor that may be used: it is not revoked, its end is known and not reached, and its
-- scope is that of one of the roles, unless it has none or no role is asked for.
pub record MayServe (dest : String) (wanted : List String) (now : ℕ) (d : Delegation) : Type 0 where
  pub in_force : d.revoked ≡ false
  pub ends_later : (until : ℕ) × (d.until ≡ some until) × (now < until)
  pub delegate : normalize_actor d.to_actor ≡ dest
  pub covers : CoversRole d.scope wanted

serves-MayServe :
    (dest : String) (wanted : List String) (now : ℕ) (d : Delegation)
    → serves dest wanted now d ≡ true
    → MayServe dest wanted now d
unfolding serves is_active
serves-MayServe dest wanted now d h =
    let parts =
      both (is_active now d) (str_eq (normalize_actor d.to_actor) dest) (in_scope d.scope wanted)
        h in
    record {
      in_force = ground (arith, parts.0);
      ends_later = until_later d.until now (ground (arith, parts.0));
      delegate = (eq_iff (normalize_actor d.to_actor) dest).0 parts.1;
      covers = in_scope-CoversRole d.scope wanted parts.2;
    }

MayServe-serves :
    (dest : String) (wanted : List String) (now : ℕ) (d : Delegation)
    → MayServe dest wanted now d
    → serves dest wanted now d ≡ true
unfolding serves is_active
MayServe-serves dest wanted now d m =
    let (until, set, later) = m.ends_later in
    rw
      (
        m.in_force,
        set,
        lt→ltb now until later,
        (eq_iff (normalize_actor d.to_actor) dest).1 m.delegate,
      )
      (CoversRole-in_scope d.scope wanted m.covers)

-- The first of the list that may be used.
pub record IsFirst (dest : String) (wanted : List String) (now : ℕ) (items : List Delegation)
    (d : Delegation) : Type 0 where
  pub before : List Delegation
  pub after : List Delegation
  pub split : items ≡ before ++ d ∷ after
  pub others : All (λ e. ¬ MayServe dest wanted now e) before
  pub itself : MayServe dest wanted now d

-- Nothing is found when none may be used; what is found is the first.
abbrev pub Finds : String → List String → ℕ → List Delegation → Option Delegation → Type 0
Finds dest wanted now items none = All (λ e. ¬ MayServe dest wanted now e) items
Finds dest wanted now items (some d) = IsFirst dest wanted now items d

Finds-later :
    (dest : String) (wanted : List String) (now : ℕ) (e : Delegation) (es : List Delegation)
    (found : Option Delegation)
    → (¬ MayServe dest wanted now e)
    → Finds dest wanted now es found
    → Finds dest wanted now (e ∷ es) found
Finds-later dest wanted now e es none idle later = (idle, later)
Finds-later dest wanted now e es (some d) idle later = record {
  before = e ∷ later.before;
  after = later.after;
  split = ap (λ ds. e ∷ ds) later.split;
  others = (idle, later.others);
  itself = later.itself;
}

first_serving-Finds :
    (dest : String) (wanted : List String) (now : ℕ) (items : List Delegation)
    → Finds dest wanted now items (first_serving dest wanted now items)
unfolding first_serving
first_serving-Finds dest wanted now [] = tt
first_serving-Finds dest wanted now (e ∷ es) =
    if_cases (Finds dest wanted now (e ∷ es)) (serves dest wanted now e)
      (λ able. record {
        before = [];
        after = es;
        split = refl;
        others = tt;
        itself = serves-MayServe dest wanted now e able;
      })
      (λ unable.
        Finds-later dest wanted now e es _
          (λ m. let able = MayServe-serves dest wanted now e m in cc)
          (first_serving-Finds dest wanted now es))

-- An actor with a name is found the first delegation of the store that may be used for it: one that is not
-- revoked, ends later than now, names the actor as the delegate, and has no scope or that of one of the roles,
-- of which the empty ones do not count, unless there is none. Nothing is found when no delegation is such.
pub find_delegation-Finds :
    (actor : String) (roles : List String) (now : ℕ) (items : List Delegation)
    → ¬ (normalize_actor actor ≡ "")
    → Finds
        (normalize_actor actor)
        (wanted_roles roles)
        now
        items
        (find_delegation actor roles now items)
unfolding find_delegation
find_delegation-Finds actor roles now items named =
    if_cases (Finds (normalize_actor actor) (wanted_roles roles) now items)
      (str_eq (normalize_actor actor) "")
      (λ blank. absurd (named ((eq_iff (normalize_actor actor) "").0 blank)))
      (λ _. first_serving-Finds (normalize_actor actor) (wanted_roles roles) now items)

conflict-chain :
    (source dest : String) (scope : Option String) (d : Delegation)
    → conflict source dest scope d ≡ none
    → str_eq (normalize_actor d.to_actor) source ≡ false
unfolding conflict
conflict-chain source dest scope d h =
    elim (Bool-cases (str_eq (normalize_actor d.to_actor) source)) [
      | inl same ↦ absurd (cc (rw same at h))
      | inr apart ↦ apart
    ]

abbrev pub IsNoChain : String → ℕ → Delegation → Type 0
IsNoChain source now d = is_active now d ≡ true → str_eq (normalize_actor d.to_actor) source ≡ false

first_conflict-IsNoChain :
    (now : ℕ) (source dest : String) (scope : Option String) (items : List Delegation)
    → first_conflict now source dest scope items ≡ none
    → All (IsNoChain source now) items
unfolding first_conflict
first_conflict-IsNoChain now source dest scope [] h = tt
first_conflict-IsNoChain now source dest scope (d ∷ ds) h = elim (Bool-cases (is_active now d)) [
  | inr idle ↦ (
    λ active. absurd (cc (idle, active)),
    first_conflict-IsNoChain now source dest scope ds (rw idle at h),
  )
  | inl active ↦ elim (Option-cases (conflict source dest scope d)) [
    | inl free ↦ (
      λ _. conflict-chain source dest scope d free,
      first_conflict-IsNoChain now source dest scope ds (rw (active, free) at h),
    )
    | inr (refusal, against) ↦ absurd (cc (rw (active, against) at h))
  ]
]

-- A delegation that is accepted continues no other: nobody's delegation to its giver is in force then.
pub add_delegation-IsNoChain :
    (id from_actor to_actor : String) (until : Option ℕ) (scope : Option String) (now : ℕ)
    (items : List Delegation)
    → (add_delegation id from_actor to_actor until scope now items).0 ≡ none
    → All (IsNoChain (normalize_actor (strip from_actor)) now) items
unfolding add_delegation
add_delegation-IsNoChain id from_actor to_actor none scope now items = λ h. absurd (cc)
add_delegation-IsNoChain id from_actor to_actor (some until) scope now items =
    let source = normalize_actor (strip from_actor) in
    let dest = normalize_actor (strip to_actor) in
    let Free : Option Refusal × List Delegation → Type 0 =
      λ x. x.0 ≡ none → All (IsNoChain source now) items in
    if_cases Free (str_eq (strip from_actor) "" || str_eq (strip to_actor) "") (λ _ h. absurd (cc))
      λ _.
        if_cases Free (str_eq source dest) (λ _ h. absurd (cc))
          λ _.
            if_cases Free (not (ltb now until)) (λ _ h. absurd (cc))
              λ _.
                option_cases Free (first_conflict now source dest (strip_scope scope) items)
                  (λ clear _.
                    first_conflict-IsNoChain now source dest (strip_scope scope) items clear)
                  (λ refusal _ h. absurd (cc))
