-- ===== src/Npr/FreeList.antt =====
-- ixp/npr/nprd_configuration.cc: the free indexes of a table, as a linked list of ranges in their order.
-- A node that is not NULL is the head of a list here, and the pointer `*head` is the list itself.
pub mod Chain
pub mod Holders
use onldaemons.Prelude.{
  ℕ, ◌+◌, ◌-◌, ◌%◌, ◌^◌, List, [], ◌∷◌, Option, none, some, ltb, ◌==◌, if◌then◌else◌,
}

pub record Range : Type 0 where
  pub left : ℕ
  pub right : ℕ

abbrev pub range : ℕ → ℕ → Range
range l r = record { left = l; right = r }

abbrev succ32 : ℕ → ℕ
succ32 i = (i + 1) % 2 ^ 32

abbrev pred32 : ℕ → ℕ
pred32 i = (i + 2 ^ 32 - 1) % 2 ^ 32

-- `none` is the exception, "no more free TCAM entries".
unfoldable pub get_free_index : List Range → Option (ℕ × List Range)
get_free_index [] = none
get_free_index (head ∷ next) =
    if head.left == head.right
    then some (head.left, next)
    else some (head.left, range (succ32 head.left) head.right ∷ next)

-- The loop and what follows it, where `last` is not `node`: the list from `last` on.
unfoldable pub insert_after : ℕ → Range → List Range → List Range
insert_after index last [] =
    if last.right == pred32 index then range last.left index ∷ [] else last ∷ range index index ∷ []
insert_after index last (node ∷ next) =
    let further = insert_after index node next in
    if ltb node.right index
    then last ∷ further
    else if last.right == pred32 index
    then (if node.left == succ32 index
        then range last.left node.right ∷ next
        else range last.left index ∷ node ∷ next)
    else if node.left == succ32 index
    then last ∷ range index node.right ∷ next
    else last ∷ range index index ∷ node ∷ next

-- Where the loop stops at once, `last` is `node`. Its right end is then not below `index`; with index
-- 0 and the right end 2 ^ 32 - 1 the code would go on to join the node to itself, if its left end is 1.
unfoldable pub insert_before : ℕ → Range → List Range → List Range
insert_before index node next =
    if node.right == pred32 index
    then range node.left index ∷ next
    else if node.left == succ32 index
    then range index node.right ∷ next
    else range index index ∷ node ∷ next

unfoldable pub add_free_index : ℕ → List Range → List Range
add_free_index index [] = range index index ∷ []
add_free_index index (head ∷ next) =
    if ltb head.right index then insert_after index head next else insert_before index head next
