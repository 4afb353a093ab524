-- ===== src/Interface/Cqs.antt =====
-- What a handler leaves of the CQs: the one it served has nothing new, and all keep their links.
use schedra_nic.Prelude.{
  ℕ, ◌≡◌, refl, ap, ◌∙◌, sym, subst, inl, inr, true, List, [], ◌∷◌, Option, some, get_elem?, set,
  arith, zero, suc,
}
use schedra_nic.Cq.{Cq}
use schedra_nic.Cq.Completion.{is_old, Answers}
use schedra_nic.Cq.Completion.{IsCq}
use schedra_nic.Eq.{Eq}
use schedra_nic.Interface.Well.{link, IsEq}

-- A CQ with the same handler and ring in the place of another leaves all links as they are.
pub link-set :
    (l : List Cq) (p : ℕ) {q : Cq} (q' : Cq)
    → get_elem? l p ≡ some q
    → link (some q') ≡ link (some q)
    → (x : ℕ) → link (get_elem? (set l p q') x) ≡ link (get_elem? l x)
link-set [] p q' h e x = refl
link-set (y ∷ ys) zero q' h e zero = e ∙ ap link (sym h)
link-set (y ∷ ys) zero q' h e (suc x) = refl
link-set (y ∷ ys) (suc p) q' h e zero = refl
link-set (y ∷ ys) (suc p) q' h e (suc x) = link-set ys p q' h e x

-- A CQ that has nothing new at its pointer answers for any ring.
pub nothing_new :
    (q : Cq) {k size_mask prod cons : ℕ} (info : List (Option ℕ))
    → is_old q q.cons_ptr ≡ true
    → Answers q k size_mask prod cons q.cons_ptr info
nothing_new q info old = record {
  holds_packet = λ c l all. absurd (ground (arith, old, all q.cons_ptr (omega arith) l));
  apart = λ b c l u all. absurd (ground (arith, old, all q.cons_ptr (omega arith) (omega arith)));
}

-- A CQ of which only the pointer has changed is well formed, and keeps its link.
pub moved-IsCq : (q q' : Cq) {c : ℕ} → q' ≡ record q { cons_ptr = c } → IsCq q → IsCq q'
moved-IsCq q q' e v =
    subst IsCq (sym e) (record { size = v.size; size_mask = v.size_mask; window = v.window })

pub moved-link :
    (q q' : Cq) {c : ℕ} → q' ≡ record q { cons_ptr = c } → link (some q') ≡ link (some q)
moved-link q q' e = ap (λ z. link (some z)) e

pub moved-is_old :
    (q q' : Cq) {c : ℕ}
    → q' ≡ record q { cons_ptr = c }
    → (x : ℕ) → is_old q x ≡ true
    → is_old q' x ≡ true
moved-is_old q q' e x old = subst (λ z. is_old z x ≡ true) (sym e) old

-- An EQ stays well formed while the CQs keep their links.
pub IsEq-links :
    {cqs cqs' : List Cq} {eq : Eq}
    → ((x : ℕ) → link (get_elem? cqs' x) ≡ link (get_elem? cqs x))
    → IsEq cqs eq
    → IsEq cqs' eq
IsEq-links same v = record {
  size = v.size;
  size_mask = v.size_mask;
  window = v.window;
  events = λ c l fresh. elim (v.events c l fresh) [
    | inl other ↦ inl other
    | inr (place, k, at, there) ↦ inr (place, k, at, same place ∙ there)
  ];
}
