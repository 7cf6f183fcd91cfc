-- ===== src/Store/Admin/Update/Order.antt =====
-- The order of the columns of an update: Go ranges over a map in any order.
use mathlib.Core.List.{Permᴰ}
use mathlib.Core.Path.{subst, fun_ext}
use lewly_pgpyewj.Prelude.{
  ◌≡◌, refl, sym, ap, ◌∙◌, arith, Bool, true, false, Bool-cases, inl, inr, Option, none, some, List,
  ◌∷◌, Text, Uuid, ◌==◌, any_where, if◌then◌else◌,
}
use lewly_pgpyewj.Db.{Event, Assignment}
use lewly_pgpyewj.Effect.{World, ◌>>=◌}
use lewly_pgpyewj.Store.Admin.Update.{
  column_of, assign, assign_all, sets_twice, also, bound, is_empty, set_row, run_update,
  update_event,
}

assign_comm :
    (a b : Assignment) (e : Event)
    → (column_of b == column_of a) ≡ false
    → assign b (assign a e) ≡ assign a (assign b e)
unfolding assign
assign_comm a b e h = ground arith

any_where-Perm :
    (p : Assignment → Bool) {xs ys : List Assignment}
    → Permᴰ xs ys
    → any_where p xs ≡ any_where p ys
any_where-Perm p Permᴰ.nil = refl
any_where-Perm p (Permᴰ.cons e d) = rw (e, any_where-Perm p d) refl
any_where-Perm p (Permᴰ.swap {a} {b} {l = l} e f) =
    rw (sym e, sym f) (swapped (p a) (p b) (any_where p l))
  where
    swapped :
        (x y rest : Bool)
        → (if x then true else if y then true else rest)
          ≡ (if y then true else if x then true else rest)
    swapped x y rest = ground arith
any_where-Perm p (Permᴰ.trans d d') = any_where-Perm p d ∙ any_where-Perm p d'

sets_twice-Perm : {xs ys : List Assignment} → Permᴰ xs ys → sets_twice xs ≡ sets_twice ys
sets_twice-Perm Permᴰ.nil = refl
sets_twice-Perm (Permᴰ.cons {b = b} e d) =
    rw (e, sets_twice-Perm d, any_where-Perm (λ c. column_of c == column_of b) d) refl
sets_twice-Perm (Permᴰ.swap {a} {b} {a'} {l = l} e f) =
    swapped a b l
    ∙ ap (λ (c : Assignment). sets_twice (c ∷ a ∷ l)) f
    ∙ ap (λ (c : Assignment). sets_twice (a' ∷ c ∷ l)) e
  where
    swapped :
        (a b : Assignment) (l : List Assignment) → sets_twice (a ∷ b ∷ l) ≡ sets_twice (b ∷ a ∷ l)
    swapped a b l = ground arith
sets_twice-Perm (Permᴰ.trans d d') = sets_twice-Perm d ∙ sets_twice-Perm d'

assign_all-Perm :
    {xs ys : List Assignment} (e : Event)
    → Permᴰ xs ys
    → sets_twice xs ≡ false
    → assign_all xs e ≡ assign_all ys e
assign_all-Perm e Permᴰ.nil h = refl
assign_all-Perm e (Permᴰ.cons {b = b} same d) h =
    rw same (assign_all-Perm (assign b e) d (ground arith))
assign_all-Perm e (Permᴰ.swap {a} {b} {l = l} f g) h =
    rw (sym f, sym g) (ap (assign_all l) (assign_comm a b e (ground arith)))
assign_all-Perm e (Permᴰ.trans d d') h =
    assign_all-Perm e d h ∙ assign_all-Perm e d' (sym (sets_twice-Perm d) ∙ h)

-- the same assignments in another order, or no assignments for both
abbrev Alike : Option (List Assignment) → Option (List Assignment) → Type 0
Alike none none = Unit
Alike (some xs) (some ys) = Permᴰ xs ys
Alike _ _ = ⊥

same_case :
    (o : Option Assignment) (x y : Option (List Assignment))
    → Alike x y
    → Alike (also o x) (also o y)
same_case none x y h = tt
same_case (some a) none none h = tt
same_case (some a) none (some ys) h = elim h [ ]
same_case (some a) (some xs) none h = elim h [ ]
same_case (some a) (some xs) (some ys) h = Permᴰ.cons refl h

swap_case :
    (o p : Option Assignment) (x : Option (List Assignment))
    → Alike (also o (also p x)) (also p (also o x))
swap_case none none x = tt
swap_case none (some b) none = tt
swap_case none (some b) (some xs) = tt
swap_case (some a) none none = tt
swap_case (some a) none (some xs) = tt
swap_case (some a) (some b) none = tt
swap_case (some a) (some b) (some xs) = Permᴰ.swap refl refl

Alike-trans : (x y z : Option (List Assignment)) → Alike x y → Alike y z → Alike x z
Alike-trans none none none h k = tt
Alike-trans none none (some zs) h k = elim k [ ]
Alike-trans none (some ys) z h k = elim h [ ]
Alike-trans (some xs) none z h k = elim h [ ]
Alike-trans (some xs) (some ys) none h k = elim k [ ]
Alike-trans (some xs) (some ys) (some zs) h k = Permᴰ.trans h k

is_empty-Perm : {A : Type 0} {xs ys : List A} → Permᴰ xs ys → is_empty xs ≡ is_empty ys
is_empty-Perm Permᴰ.nil = refl
is_empty-Perm (Permᴰ.cons e d) = refl
is_empty-Perm (Permᴰ.swap e f) = refl
is_empty-Perm (Permᴰ.trans d d') = is_empty-Perm d ∙ is_empty-Perm d'

module _ (bind : Text → Text → Option Assignment) where
  bound-Alike : {us vs : List (Text × Text)} → Permᴰ us vs → Alike (bound bind us) (bound bind vs)
  bound-Alike Permᴰ.nil = Permᴰ.nil
  bound-Alike (Permᴰ.cons {b = u} {l₁ = us} {l₂ = vs} e d) =
      subst (λ v. Alike (bound bind (v ∷ us)) (bound bind (u ∷ vs))) (sym e)
        (same_case (bind u.0 u.1) (bound bind us) (bound bind vs) (bound-Alike d))
  bound-Alike (Permᴰ.swap {a} {b} {a'} {l = l} e f) =
      subst (λ v. Alike (bound bind (a ∷ b ∷ l)) (bound bind (a' ∷ v ∷ l))) e
        (subst (λ v. Alike (bound bind (a ∷ b ∷ l)) (bound bind (v ∷ a ∷ l))) f
          (swap_case (bind a.0 a.1) (bind b.0 b.1) (bound bind l)))
  bound-Alike (Permᴰ.trans {l₁ = us} {l₂ = vs} {l₃ = ws} d d') =
      Alike-trans (bound bind us) (bound bind vs) (bound bind ws) (bound-Alike d) (bound-Alike d')

run-Alike :
    (event_id : Uuid) (x y : Option (List Assignment)) (w : World)
    → Alike x y
    → run_update event_id x w ≡ run_update event_id y w
run-Alike event_id none none w h = refl
run-Alike event_id none (some ys) w h = elim h [ ]
run-Alike event_id (some xs) none w h = elim h [ ]
run-Alike event_id (some xs) (some ys) w h = elim (Bool-cases (sets_twice xs)) [
  | inl twice ↦ rw (twice, sym (sets_twice-Perm h) ∙ twice) refl
  | inr once ↦
      rw (once, sym (sets_twice-Perm h) ∙ once)
        (ap (λ (f : Event → Event). set_row event_id f w) (fun_ext (λ e. assign_all-Perm e h once)))
]

-- The columns of an update may come in any order, as Go's map gives them: the outcome and the
-- world that UpdateEvent leaves are the same, whether its call fails, a field is no column, a
-- column comes twice, the event is missing or its row is changed.
pub update_event-Perm :
    (event_id : Uuid) {us vs : List (Text × Text)} (w : World)
    → Permᴰ us vs
    → update_event event_id us w ≡ update_event event_id vs w
unfolding update_event ◌>>=◌
update_event-Perm event_id {us} {vs} w d = rw (is_empty-Perm d) (elim (Bool-cases (is_empty vs)) [
  | inl none_given ↦ rw none_given refl
  | inr given ↦ rw given (
      run-Alike event_id (bound w.bind_column us) (bound w.bind_column vs) w
        (bound-Alike w.bind_column d))
])
