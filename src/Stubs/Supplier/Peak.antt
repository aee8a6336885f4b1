-- ===== src/Stubs/Supplier/Peak.antt =====
-- The statistics of the calls: the peak tells whether the limit was kept.
use hh_game_market_backend.Base.{ℕ, ◌≡◌, List, [], ◌∷◌, leb, ◌==◌}
use hh_game_market_backend.Stubs.Supplier.{CallStats, Stub, admit}

-- Requests that arrive one after the other.
unfoldable pub admits : List ℕ → ℕ → Stub → Stub
unfolding admit
admits [] supplier s = s
admits (t ∷ ts) supplier s = admits ts supplier (admit t supplier s).1

record IsFair (limit n : ℕ) (c : CallStats) : Type 0 where
  total : c.total ≡ n
  fair : (c.rejected == 0) ≡ leb c.peak_in_window limit
