-- ===== src/OrdHashMap/Tests.antt =====
-- Runs on small maps, and the theorems at concrete inputs.
use pilatus.Base.{ℕ, ◌≡◌, refl, true, false, some, List, [], ◌∷◌, ◌++◌, arith, nat_eq}
use pilatus.Base.Sort.{sort_by_key, insert_sorted}
use pilatus.HashMap
use pilatus.HashMap.{HashMap, NodupKeys}
use pilatus.OrdHashMap.Defs.{
  OrdHashMap, iter_ordered, get, contains_key, get_mut, insert, remove, deserialize, serialize,
}
use pilatus.OrdHashMap.Indices.{IsValid}
use pilatus.OrdHashMap.Order.{
  iter_ordered-insert, iter_ordered-remove, deserialize-serialize, insert_present_collides,
}

run : Unit {0}
unfolding iter_ordered sort_by_key insert_sorted get contains_key get_mut insert remove deserialize
    serialize HashMap.get HashMap.insert HashMap.remove HashMap.modify
run = tt

-- Three keys whose table order is not their order.
abbrev three : OrdHashMap ℕ ℕ
three = (7, (1, 70)) ∷ (5, (2, 50)) ∷ (9, (0, 90)) ∷ []

abbrev entries : List (ℕ × ℕ)
entries = (9, 90) ∷ (7, 70) ∷ (5, 50) ∷ []

three-IsValid : IsValid three
unfolding run
three-IsValid = record {
  nodup = (refl, (refl, (refl, tt)));
  bounded = omega arith;
  distinct = omega arith;
}

entries_ordered : iter_ordered three ≡ entries
unfolding run
entries_ordered = refl

entries_removed : iter_ordered (remove 7 three).0 ≡ (9, 90) ∷ (5, 50) ∷ []
unfolding run
entries_removed = refl

entries_replaced : iter_ordered (insert 9 1 three).0 ≡ (7, 70) ∷ (5, 50) ∷ (9, 1) ∷ []
unfolding run
entries_replaced = refl

absent : contains_key 4 three ≡ false
unfolding run
absent = refl

iter_ordered-insert_example :
    iter_ordered (insert 4 40 three).0 ≡ iter_ordered three ++ (4, 40) ∷ []
iter_ordered-insert_example = iter_ordered-insert 4 40 three three-IsValid absent

iter_ordered-remove_example :
    iter_ordered (remove 7 three).0 ≡ HashMap.remove 7 (iter_ordered three)
iter_ordered-remove_example = iter_ordered-remove 7 three three-IsValid

entries-NodupKeys : NodupKeys entries
unfolding run
entries-NodupKeys = (refl, (refl, (refl, tt)))

deserialize-serialize_example :
    IsValid (deserialize (serialize three))
    × (iter_ordered (deserialize (serialize three)) ≡ iter_ordered three)
    × ((k : ℕ) → get k (deserialize (serialize three)) ≡ get k three)
deserialize-serialize_example = deserialize-serialize three three-IsValid

present : contains_key 9 three ≡ true
unfolding run
present = refl

insert_present_collides_example :
    (HashMap.get 9 (insert 4 40 (insert 9 1 three).0).0 ≡ some (3, 1))
    × (HashMap.get 4 (insert 4 40 (insert 9 1 three).0).0 ≡ some (3, 40))
    × ¬ IsValid (insert 4 40 (insert 9 1 three).0).0
insert_present_collides_example = insert_present_collides 9 4 1 40 three present absent
