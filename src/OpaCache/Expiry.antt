-- ===== src/OpaCache/Expiry.antt =====
-- The cleanup loop of internal/service/opacache/cache.go, and the map's keys under every operation.
use auth.Base.{All, List, String, [], arith, eq_iff, none, refl, ℕ, ◌∷◌, ◌≡◌, ◌≢◌, ◌≤◌}
use auth.OpaCache.{
  Entry, Cache, IsMap, entry_at, delete_where, is_expired, live_value, get, cleanup,
}

module _ {ℓ} {V : Type ℓ} where
  absent_entry :
      (j : String) (l : List (String × Entry V))
      → All {A = String × Entry V} (λ b. b.0 ≢ j) l
      → entry_at j l ≡ none
  unfolding entry_at
  absent_entry j [] h = refl
  absent_entry j ((k, e) ∷ l) h = ground (arith, eq_iff k j, absent_entry j l)

  live-cleanup :
      (now t : ℕ) (j : String) (l : List (String × Entry V))
      → now ≤ t
      → IsMap l
      → live_value t (entry_at j (delete_where (λ _ e. is_expired now e) l))
        ≡ live_value t (entry_at j l)
  unfolding entry_at delete_where live_value
  live-cleanup now t j [] h m = refl
  live-cleanup now t j ((k, e) ∷ l) h m =
      ground (arith, eq_iff k j, absent_entry j l, live-cleanup now t j l)

  -- The cleanup at `now` is invisible: from then on every key reads what it would have read.
  pub get-cleanup :
      (now t : ℕ) (j : String) (c : Cache V)
      → now ≤ t
      → IsMap c.entries
      → get t j (cleanup now c) ≡ get t j c
  unfolding get cleanup
  get-cleanup now t j c h m = live-cleanup now t j c.entries h m
