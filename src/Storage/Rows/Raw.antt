-- ===== src/Storage/Rows/Raw.antt =====
-- What of an address can be read off the rows.
use crucible_analytic.Prelude.{ℕ, ◌≡◌, refl, ap₂, List, [], ◌∷◌, Option, Bytes, map}
use crucible_analytic.ClientIp.Resolver.{Addr}
use crucible_analytic.RateStore.Store.{Snapshot}
use crucible_analytic.Privacy.{ip_masked, mask_ip}
use crucible_analytic.Storage.Rows.{
  RowOptions, geo_of, masked_for, token_for, build_row, build_rows,
}

module _ (hmac : Bytes → Bytes → Bytes) where
  build_row_same :
      (ip other : Option Addr) (snap : Snapshot) (now : ℕ) (opts : RowOptions)
      → opts.ip_mode ≡ ip_masked
      → mask_ip other ip_masked ≡ mask_ip ip ip_masked
      → geo_of opts.resolver other ≡ geo_of opts.resolver ip
      → build_row hmac other snap now opts ≡ build_row hmac ip snap now opts
  unfolding build_row masked_for token_for
  build_row_same ip other snap now opts mode net geo = simp (mode, net, geo)

  -- In masked mode, whatever takes the place of the addresses inside their networks, for what the
  -- resolver knows as one country and one network: the rows are the same.
  pub build_rows-map :
      (twin : Option Addr → Option Addr) (snapshots : List (Option Addr × Snapshot)) (now : ℕ)
      (opts : RowOptions)
      → opts.ip_mode ≡ ip_masked
      → ((ip : Option Addr) → mask_ip (twin ip) ip_masked ≡ mask_ip ip ip_masked)
      → ((ip : Option Addr) → geo_of opts.resolver (twin ip) ≡ geo_of opts.resolver ip)
      → build_rows hmac (map (λ (ip, snap). (twin ip, snap)) snapshots) now opts
        ≡ build_rows hmac snapshots now opts
  unfolding build_rows
  build_rows-map twin [] now opts mode net geo = refl
  build_rows-map twin ((ip, snap) ∷ rest) now opts mode net geo =
      ap₂ ◌∷◌ (build_row_same ip (twin ip) snap now opts mode (net ip) (geo ip))
        (build_rows-map twin rest now opts mode net geo)
