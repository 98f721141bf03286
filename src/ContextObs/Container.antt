-- ===== src/ContextObs/Container.antt =====
-- Go's container/list: the elements from the front, each with a number for its address.
use codex_account_pool.Prelude.{ℕ, Option, none, some, List, [], ◌∷◌, eqb, if◌then◌else◌}

abbrev pub Elements {ℓ} : Type ℓ → Type ℓ
Elements A = List (ℕ × A)

module _ {ℓ} {A : Type ℓ} where
  -- el.Value, for an element of the list
  unfoldable pub value_of : ℕ → Elements A → Option A
  value_of at [] = none
  value_of at ((i, a) ∷ l) = if eqb i at then some a else value_of at l

  -- l.Remove(el)
  unfoldable pub remove_element : ℕ → Elements A → Elements A
  remove_element at [] = []
  remove_element at ((i, a) ∷ l) =
      let rest = remove_element at l in if eqb i at then l else (i, a) ∷ rest

  -- l.MoveToFront(el), after el.Value has become `a`
  unfoldable pub to_front : ℕ → A → Elements A → Elements A
  to_front at a l = (at, a) ∷ remove_element at l

  -- l.Back()
  unfoldable pub back : Elements A → Option (ℕ × A)
  back [] = none
  back (e ∷ []) = some e
  back (e ∷ f ∷ l) = back (f ∷ l)
