-- ===== src/Rp/Hash.antt =====
-- `hashCode` of packages/siop-oid4vp/lib/rp/InMemoryRPSessionManager.ts.
use oid4vc.Prelude.{
  ℕ, ◌+◌, ◌-◌, ◌*◌, ◌/◌, ◌%◌, ◌^◌, String, List, [], ◌∷◌, ltb, if◌then◌else◌, codes,
}

-- The UTF-16 code units of a text's code points, which `charCodeAt` reads.
unfoldable pub units : List ℕ → List ℕ
units [] = []
units (c ∷ cs) =
    if ltb c 65536
    then c ∷ units cs
    else (55296 + (c - 65536) / 1024) ∷ (56320 + (c - 65536) % 1024) ∷ units cs

-- `h = (Math.imul(31, h) + c) | 0`, with the 32-bit integers as their residues below 2 ^ 32. The
-- code uses the result as a key only, where a residue and its signed integer are as good.
unfoldable pub hash_from : ℕ → List ℕ → ℕ
hash_from h [] = h
hash_from h (c ∷ cs) = hash_from ((31 * h + c) % 2 ^ 32) cs

unfoldable pub hash_code : String → ℕ
unfolding units hash_from
hash_code s = hash_from 1 (units (codes s))
