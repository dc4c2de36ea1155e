-- ===== src/RelayerRegistry/Spec/Entries.antt =====
-- The list of entries of the registry: what `upsert` keeps, and how its entries are found.
use caligo.Prelude.{
  ℕ, zero, suc, ◌≡◌, refl, ap, sym, ◌∙◌, none, some, List, [], ◌∷◌, ◌++◌, ite, if_pos, if_neg,
  arith,
}
use caligo.Prelude.Tests.{if◌then◌else◌}
use caligo.Prelude.Lists.{length, get_elem?, length-snoc}
use caligo.Soroban.{Soroban}
use caligo.RelayerRegistry.Storage.{RelayerInfo, has}
use caligo.RelayerRegistry.Spec.{find, upsert}

module _ ⦃host : Soroban⦄ where
  open host use {Address, address_discrete}

  pub find-upsert :
      (info : RelayerInfo) (a : Address) (rs : List RelayerInfo)
      → find a (upsert info rs) ≡ ite (address_discrete info.address a) (some info) (find a rs)
  unfolding find upsert
  find-upsert info a [] = refl
  find-upsert info a (r ∷ rs) = ground (arith, find-upsert info a rs)

  abbrev pub addresses : List RelayerInfo → List Address
  addresses [] = []
  addresses (r ∷ rs) = r.address ∷ addresses rs

  -- The address of an entry that is there keeps its place, a new one comes last.
  pub addresses-upsert :
      (info : RelayerInfo) (rs : List RelayerInfo)
      → addresses (upsert info rs)
        ≡ (if has (find info.address rs) then addresses rs else addresses rs ++ (info.address ∷ []))
  unfolding find upsert
  addresses-upsert info [] = refl
  addresses-upsert info (r ∷ rs) = ground (arith, addresses-upsert info rs)

  pub length-addresses : (rs : List RelayerInfo) → length (addresses rs) ≡ length rs
  length-addresses [] = refl
  length-addresses (r ∷ rs) = ap suc (length-addresses rs)

  pub length-upsert :
      (info : RelayerInfo) (rs : List RelayerInfo)
      → length (upsert info rs)
        ≡ (if has (find info.address rs) then length rs else suc (length rs))
  length-upsert info rs = ground (
    arith,
    length-addresses (upsert info rs),
    length-addresses rs,
    length-snoc (addresses rs) info.address,
    ap length (addresses-upsert info rs),
  )

  pub find-address :
      (a : Address) (rs : List RelayerInfo) (r : RelayerInfo) → find a rs ≡ some r → r.address ≡ a
  unfolding find
  find-address a [] r h = cc
  find-address a (q ∷ rs) r h = ground (arith, find-address a rs r)

  -- No address has two entries.
  abbrev pub Distinct : List RelayerInfo → Type 0
  Distinct [] = Unit
  Distinct (r ∷ rs) = (find r.address rs ≡ none) × Distinct rs

  pub upsert-Distinct :
      (info : RelayerInfo) (rs : List RelayerInfo) → Distinct rs → Distinct (upsert info rs)
  unfolding find upsert
  upsert-Distinct info [] d = (refl, tt)
  upsert-Distinct info (r ∷ rs) d = elim (address_discrete r.address info.address) [
    | yes here ↦
        rw (if_pos (address_discrete r.address info.address) here)
          (ap (λ a. find a rs) (sym here) ∙ d.0, d.1)
    | no other ↦
        rw (if_neg (address_discrete r.address info.address) other)
          (ground (arith, find-upsert info r.address rs, d.0), upsert-Distinct info rs d.1)
  ]

  pub find-Distinct :
      (rs : List RelayerInfo) (i : ℕ) (r : RelayerInfo)
      → Distinct rs
      → get_elem? rs i ≡ some r
      → find r.address rs ≡ some r
  unfolding find
  find-Distinct [] i r d h = cc
  find-Distinct (q ∷ rs) zero r d h =
      ground (arith, ap RelayerInfo.address (let same : q ≡ r = cc in same))
  find-Distinct (q ∷ rs) (suc i) r d h = ground (arith, find-Distinct rs i r d.1 h)
