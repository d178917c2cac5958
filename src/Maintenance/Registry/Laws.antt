-- ===== src/Maintenance/Registry/Laws.antt =====
-- What a registry resolves: the jobs it was built from, under their own names.
use anchorix.Prelude.{
  ℕ, ◌+◌, ◌≡◌, refl, ap, sym, ◌∙◌, Option, none, some, false, List, [], ◌∷◌, ok, is_some, arith,
  >>=-eq-ok, ok-injective, inl, inr, subst, ◌⊎◌, ◌↔◌,
}
use anchorix.Prelude.Text.{Text, text_eq_iff, text_eq_refl}
use mathlib.Core.List.{Memᴰ}
use anchorix.Maintenance.Registry.{
  Job, JobRegistry, find_in, register, new_job_registry, lookup_job,
}

-- registering keeps what was there, adds each job under its name, and adds nothing else
record Registered (js : List (Option Job)) (m m' : List (Text × Job)) : Type 0 where
  kept : (n : Text) (j : Job) → find_in n m ≡ some j → find_in n m' ≡ some j
  added : (j : Job) → Memᴰ (some j) js → find_in j.name m' ≡ some j
  sources :
      (n : Text) (j : Job)
      → find_in n m' ≡ some j
      → (find_in n m ≡ some j) ⊎ ((j.name ≡ n) × Memᴰ (some j) js)

find_in-here : (x : Job) (m : List (Text × Job)) → find_in x.name ((x.name, x) ∷ m) ≡ some x
unfolding find_in
find_in-here x m = rw (text_eq_refl x.name) refl

-- a fresh name hides no entry
find_in-below :
    (n : Text) (x j : Job) (m : List (Text × Job))
    → is_some (find_in x.name m) ≡ false
    → find_in n m ≡ some j
    → find_in n ((x.name, x) ∷ m) ≡ some j
unfolding find_in
find_in-below n x j m fresh found = ground (arith, text_eq_iff x.name n)

find_in-above :
    (n : Text) (x j : Job) (m : List (Text × Job))
    → find_in n ((x.name, x) ∷ m) ≡ some j
    → (find_in n m ≡ some j) ⊎ ((x.name ≡ n) × (x ≡ j))
unfolding find_in
find_in-above n x j m found = ground (arith, text_eq_iff x.name n)

some-injective : {a b : Job} → ◌≡◌ {A = Option Job} (some a) (some b) → a ≡ b
some-injective e = cc

step :
    (x : Job) (js : List (Option Job)) (m m' : List (Text × Job))
    → is_some (find_in x.name m) ≡ false
    → Registered js ((x.name, x) ∷ m) m'
    → Registered (some x ∷ js) m m'
step x js m m' fresh h = record {
  kept = λ n j found. h.kept n j (find_in-below n x j m fresh found);
  added = λ j inside. elim inside [
    | Memᴰ.head e ↦
        subst (λ (y : Job). find_in y.name m' ≡ some y) (sym (some-injective e))
          (h.kept x.name x (find_in-here x m))
    | Memᴰ.tail t ↦ h.added j t
  ];
  sources = λ n j found. elim (h.sources n j found) [
    | inl old ↦ elim (find_in-above n x j m old) [
      | inl older ↦ inl older
      | inr (e, same) ↦
          inr (ap (λ (k : Job). k.name) (sym same) ∙ e, Memᴰ.head (ap some (sym same)))
    ]
    | inr (e, t) ↦ inr (e, Memᴰ.tail t)
  ];
}

register-Registered :
    (i : ℕ) (js : List (Option Job)) (m : List (Text × Job)) {m' : List (Text × Job)}
    → register i js m ≡ ok m'
    → Registered js m m'
unfolding register
register-Registered i [] m e = record {
  kept = λ n j found. rw (← ok-injective e) found;
  added = λ j inside. elim inside [ ];
  sources = λ n j found. inl (rw (ok-injective e) found);
}
register-Registered i (none ∷ js) m e = absurd (ground arith)
register-Registered i (some x ∷ js) m {m'} e =
    step x js m m' (ground arith) (register-Registered (i + 1) js ((x.name, x) ∷ m) (ground arith))

-- A registry that could be built resolves a name to a job exactly if the job is one that it
-- was built from and the name is the job's own.
pub lookup_job-resolves :
    (jobs : List (Option Job)) (r : JobRegistry)
    → new_job_registry jobs ≡ ok r
    → (name : Text) (j : Job)
    → (lookup_job r name ≡ some j) ↔ ((j.name ≡ name) × Memᴰ (some j) jobs)
unfolding new_job_registry lookup_job find_in
lookup_job-resolves jobs r e name j =
    let (m, built, same) = >>=-eq-ok {A = List (Text × Job)} (register 0 jobs []) _ e in
    let h =
      subst (Registered jobs []) (ap (λ (g : JobRegistry). g.jobs) (ok-injective same))
        (register-Registered 0 jobs [] built) in
    (
      λ found. elim (h.sources name j found) [
        | inl none_yet ↦ absurd (ground arith)
        | inr found_in ↦ found_in
      ],
      λ (named, inside). rw (← named) (h.added j inside),
    )
