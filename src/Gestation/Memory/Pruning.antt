-- ===== src/Gestation/Memory/Pruning.antt =====
-- The order in which prune lets records go.
use kyvernetria.Text.Order.{text_ltb_asym, text_ltb_trans}
use kyvernetria.Gestation.Memory.{Record, goes_before}
use kyvernetria.Prelude.{◌≡◌, true, false, arith}

pub goes_before_asym : (a b : Record) → goes_before a b ≡ true → goes_before b a ≡ false
unfolding goes_before
goes_before_asym a b h = ground (arith, h, text_ltb_asym a.left b.left, text_ltb_asym a.born b.born)

pub goes_before_trans :
    (a b c : Record) → goes_before b a ≡ false → goes_before c b ≡ false → goes_before c a ≡ false
unfolding goes_before
goes_before_trans a b c h k =
    ground (arith, h, k, text_ltb_trans a.left b.left c.left, text_ltb_trans a.born b.born c.born)
