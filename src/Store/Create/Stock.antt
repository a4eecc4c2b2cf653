-- ===== src/Store/Create/Stock.antt =====
-- What the decrements of a new order do to the shelf.
use hozdacha.Base.{
  ℕ, suc, ◌≡◌, refl, inl, inr, true, Option, some, List, [], ◌∷◌, ok, Option-cases, >>=-eq-ok,
  ok-injective, ==_self, ==_ne, sym, ap, subst, ◌∙◌, All, All-map, ℕ_discrete, ◌==◌, arith,
}
use hozdacha.Base.Int.{pos, ◌+ℤ◌, ◌≤ℤ◌, int_laws, sub-add_cancel, add-zero_ℤ, parts_of_eq}
use hozdacha.Store.Rows.{Product, OrderItem}
use hozdacha.Store.Transaction.{Postgres, exec, decrement_stock, update, update-cases}
use hozdacha.Store.Create.{decremented, decrement, decrement_all}
use hozdacha.Store.Accounts.{on_hand, asked, quantity_if, is_some, InStock}

-- The decrements of a list of items, seen as what each found and wrote.
abbrev pub Sells : List OrderItem → (ℕ → Option Product) → (ℕ → Option Product) → Type 0
Sells [] ps qs = qs ≡ ps
Sells (it ∷ its) ps qs =
    (p : Product) × (ps it.product_id ≡ some p)
    × (it.quantity ≤ℤ p.stock)
    × (p.is_active ≡ true)
    × Sells its (update ps it.product_id (some (decremented it p))) qs

sold :
    (it : OrderItem) (ps : ℕ → Option Product) (r : Product × (ℕ → Option Product))
    → decrement it ps ≡ ok r
    → (p : Product) × (ps it.product_id ≡ some p)
      × (it.quantity ≤ℤ p.stock)
      × (p.is_active ≡ true)
      × (r ≡ (decremented it p, update ps it.product_id (some (decremented it p))))
unfolding decrement
sold it ps r h = elim (Option-cases (ps it.product_id)) [
  | inl e ↦ absurd (ground arith)
  | inr (p, e) ↦ (p, e, ground arith, ground arith, ground arith)
]

pub decrement_all-Sells :
    (pg : Postgres) (i : ℕ) (its : List OrderItem) (ps : ℕ → Option Product)
    (r : List Product × (ℕ → Option Product))
    → decrement_all pg i its ps ≡ ok r
    → Sells its ps r.1
unfolding decrement_all
decrement_all-Sells pg i [] ps r h = ap (λ x. x.1) (sym (ok-injective h))
decrement_all-Sells pg i (it ∷ its) ps r h =
    let (_, _, h1) = >>=-eq-ok (exec pg (decrement_stock i)) _ h in
    let (d, e, h2) = >>=-eq-ok (decrement it ps) _ h1 in
    let (rs, es, h3) = >>=-eq-ok (decrement_all pg (suc i) its d.1) _ h2 in
    let (p, found, enough, able, shape) = sold it ps d e in
    let rest : Sells its d.1 rs.1 = decrement_all-Sells pg (suc i) its d.1 rs es in
    let last : r.1 ≡ rs.1 = ap (λ x. x.1) (sym (ok-injective h3)) in
    (p, found, enough, able, subst (λ q. Sells its q r.1) (ap (λ x. x.1) shape) (rw last rest))

sold-on_hand :
    (it : OrderItem) (ps : ℕ → Option Product) (p : Product) (pid : ℕ)
    → ps it.product_id ≡ some p
    → on_hand (ps pid)
      ≡ on_hand (update ps it.product_id (some (decremented it p)) pid)
        +ℤ quantity_if (it.product_id == pid) it
sold-on_hand it ps p pid e = elim (ℕ_discrete it.product_id pid) [
  | yes q ↦ rw (← q, ==_self it.product_id, e) (sub-add_cancel p.stock it.quantity)
  | no q ↦ rw (==_ne q) (sym (add-zero_ℤ (on_hand (ps pid))))
]

-- The shelf loses exactly what the items ask for.
pub Sells-on_hand :
    (its : List OrderItem) (ps qs : ℕ → Option Product) (pid : ℕ)
    → Sells its ps qs
    → on_hand (ps pid) ≡ on_hand (qs pid) +ℤ asked pid its
unfolding asked
Sells-on_hand [] ps qs pid s = rw s (sym (add-zero_ℤ _))
Sells-on_hand (it ∷ its) ps qs pid (p, found, enough, able, s) = omega (
  int_laws,
  parts_of_eq (sold-on_hand it ps p pid found),
  parts_of_eq (Sells-on_hand its _ qs pid s),
)

-- Nobody is sold below zero.
pub Sells-InStock :
    (its : List OrderItem) (ps qs : ℕ → Option Product) → InStock ps → Sells its ps qs → InStock qs
Sells-InStock [] ps qs v s = rw s v
Sells-InStock (it ∷ its) ps qs v (p, found, enough, able, s) =
    Sells-InStock its _ qs
      (λ pid.
        update-cases (λ o. pos 0 ≤ℤ on_hand o) ps it.product_id pid _
          (λ _. omega (int_laws, enough)) (λ _. v pid))
      s

-- No product comes or goes.
pub Sells-is_some :
    (its : List OrderItem) (ps qs : ℕ → Option Product) (pid : ℕ)
    → Sells its ps qs
    → is_some (qs pid) ≡ is_some (ps pid)
Sells-is_some [] ps qs pid s = rw s
Sells-is_some (it ∷ its) ps qs pid (p, found, enough, able, s) =
    Sells-is_some its _ qs pid s
    ∙ update-cases (λ o. is_some o ≡ is_some (ps pid)) ps it.product_id pid _ (λ e. rw (← e, found))
        (λ _. refl)

-- Every ordered product exists, is active, and has the quantity of the item.
pub Sells-known :
    (its : List OrderItem) (ps qs : ℕ → Option Product)
    → Sells its ps qs
    → All (λ it. is_some (ps it.product_id) ≡ true) its
Sells-known [] ps qs s = tt
Sells-known (it ∷ its) ps qs (p, found, enough, able, s) = (
  rw found,
  All-map _ _
      (λ a h.
        sym (
          update-cases (λ o. is_some o ≡ is_some (ps a.product_id)) ps it.product_id a.product_id _
            (λ e. rw (← e, found)) (λ _. refl))
        ∙ h)
      its (Sells-known its _ qs s),
)
