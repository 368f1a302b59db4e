-- ===== src/Tests/Lists.antt =====
-- The theorems on src/linked_list.rs and src/wake_list.rs at concrete lists.
use local_sync.Prelude.{refl, none, some, [], ◌∷◌, ◌==◌, if◌then◌else◌, Returns}
use local_sync.LinkedList
use local_sync.LinkedList.{Ptr, Links, Pointers, unlinked, Store}
use local_sync.LinkedList.Chain.{IsList}
use local_sync.LinkedList.Refine.{Removed, remove-append}

-- Three nodes in a list: 5, 6, 7.
abbrev three_links : Links
three_links q =
    if q == 5
    then record { prev = none; next = some 6 }
    else if q == 6
    then record { prev = some 5; next = some 7 }
    else if q == 7
    then record { prev = some 6; next = none }
    else unlinked

abbrev three : Store
three = record { head = some 5; tail = some 7; links = three_links }

three-IsList : IsList three (5 ∷ 6 ∷ 7 ∷ [])
three-IsList = record {
  head = refl;
  tail = refl;
  chain = (refl, refl, (refl, refl, (refl, refl, tt)));
  distinct = (refl, (refl, (refl, tt)));
}

remove-append_example : Returns (Removed 6 three (5 ∷ []) (7 ∷ [])) (LinkedList.remove 6 three)
remove-append_example = remove-append 6 three (5 ∷ []) (7 ∷ []) three-IsList
