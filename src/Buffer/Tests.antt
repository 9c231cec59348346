-- ===== src/Buffer/Tests.antt =====
-- The buffers on concrete blocks.
use xbase.Prelude.{ℕ, suc, ◌≡◌, refl, Bool, true, none, List, [], ◌∷◌, arith}
use xbase.Buffer.Nocopy.{block, sub, end, link, NocopyBuffer, head, mount, visit}
use xbase.Buffer.Nocopy.Laws.{IsValid, blocks, node_blocks}
use xbase.Buffer.Nocopy.Contents.{mounted, mount_lem, visit_list, visit_lem}

-- A block and a chain of two blocks.
abbrev nested : NocopyBuffer
nested = record {
  num = 3;
  len = none;
  nodes =
      link (block (1 ∷ []))
        (link (sub 2 none (link (block (2 ∷ [])) (link (block (3 ∷ [])) end))) end);
}

nested-IsValid : IsValid nested
nested-IsValid = record {
  counted = refl;
  stored = tt;
  parts = (tt, ((refl, omega arith, tt, (tt, (tt, tt))), tt));
}

-- Counts the blocks.
abbrev counting : List ℕ → ℕ → Bool × ℕ
counting bs n = (true, suc n)

mount_lem_example :
    (blocks (mount nested (block (0 ∷ [])) head)
      ≡ mounted (blocks nested) (node_blocks (block (0 ∷ []))) head)
    × IsValid (mount nested (block (0 ∷ [])) head)
mount_lem_example = mount_lem nested (block (0 ∷ [])) head nested-IsValid tt

visit_lem_example : visit nested counting 0 ≡ visit_list counting (blocks nested) 0
visit_lem_example = visit_lem nested counting 0

abbrev hidden : List ℕ
hidden = 7 ∷ []
