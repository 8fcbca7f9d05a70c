-- ===== src/Ja4/Fingerprint/Order.antt =====
-- What a fingerprint forgets: the order of the cipher suites and of the extensions.
use mathlib.Core.List.{Perm}
use crucible_analytic.Prelude.{ℕ, ◌≡◌, List, Bytes}
use crucible_analytic.Prelude.Sorting.{sort-perm, keep_if-perm, length-perm}
use crucible_analytic.Ja4.Hello.Parse.{ClientHello}
use crucible_analytic.Ja4.Fingerprint.{
  is_hashed_extension, negotiated_version_token, best_version, part_a, part_b, part_c_raw, part_c,
  fingerprint,
}

module _ (sha256 : Bytes → Bytes) (ch : ClientHello) {cs xs : List ℕ} (p : Perm ch.cipher_suites cs)
    (q : Perm ch.extensions xs) where
  part_a-perm : part_a (record ch { cipher_suites = cs; extensions = xs }) ≡ part_a ch
  unfolding part_a negotiated_version_token best_version
  part_a-perm = rw (length-perm p, length-perm q)

  part_b-perm : part_b sha256 (record ch { cipher_suites = cs; extensions = xs }) ≡ part_b sha256 ch
  unfolding part_b
  part_b-perm = rw (length-perm p, sort-perm p)

  part_c-perm : part_c sha256 (record ch { cipher_suites = cs; extensions = xs }) ≡ part_c sha256 ch
  unfolding part_c part_c_raw
  part_c-perm = rw (sort-perm (keep_if-perm is_hashed_extension q))

  -- A client that shuffles its cipher suites or its extensions keeps its fingerprint.
  pub fingerprint-perm :
      fingerprint sha256 (record ch { cipher_suites = cs; extensions = xs }) ≡ fingerprint sha256 ch
  unfolding fingerprint
  fingerprint-perm = rw (part_a-perm, part_b-perm, part_c-perm)
