-- ===== src/Ja4/Hello/Wire.antt =====
-- The wire format of a ClientHello message, written the other way round: an encoder, and the
-- fields that a reader is to find in what it writes.
use crucible_analytic.Prelude.{
  ℕ, not, List, [], ◌∷◌, ◌++◌, map, Option, none, some, ◌==◌, length, any, keep_if, Bytes, be16,
  be24, if◌then◌else◌,
}
use crucible_analytic.Ja4.Hello.Lists.{
  is_grease, parse_alpn, parse_uint16_list_with_prefix8, parse_uint16_list_with_prefix16,
}
use crucible_analytic.Ja4.Hello.Parse.{
  ClientHello, handshake_type_client_hello, ext_server_name, ext_alpn, ext_supported_versions,
  ext_signature_algorithms,
}

pub record Extension : Type 0 where
  pub kind : ℕ
  pub body : Bytes

pub record Wire : Type 0 where
  pub legacy_version : ℕ
  pub random : Bytes
  pub session_id : Bytes
  pub cipher_suites : List ℕ
  pub compression : Bytes
  pub extensions : Option (List Extension)

abbrev pub encode_words : List ℕ → Bytes
encode_words [] = []
encode_words (w ∷ ws) = be16 w ++ encode_words ws

abbrev pub encode_extension : Extension → Bytes
encode_extension x = be16 x.kind ++ (be16 (length x.body) ++ x.body)

abbrev pub encode_extensions : List Extension → Bytes
encode_extensions [] = []
encode_extensions (x ∷ xs) =
    be16 x.kind ++ (be16 (length x.body) ++ (x.body ++ encode_extensions xs))

abbrev pub encode_tail : Option (List Extension) → Bytes
encode_tail none = []
encode_tail (some xs) = be16 (length (encode_extensions xs)) ++ encode_extensions xs

abbrev pub encode_body : Wire → Bytes
encode_body w =
    be16 w.legacy_version
    ++ (w.random
        ++ (length w.session_id
            ∷ (w.session_id
                ++ (be16 (length (encode_words w.cipher_suites))
                    ++ (encode_words w.cipher_suites
                        ++ (length w.compression ∷ (w.compression ++ encode_tail w.extensions)))))))

abbrev pub encode : Wire → Bytes
encode w = handshake_type_client_hello ∷ (be24 (length (encode_body w)) ++ encode_body w)

-- The extensions that are there.
abbrev pub listed : Option (List Extension) → List Extension
listed none = []
listed (some xs) = xs

abbrev pub drop_grease : List ℕ → List ℕ
drop_grease = keep_if (λ v. not (is_grease v))

-- The value read from the last extension of a kind.
abbrev pub last_of {ℓ} : {A : Type ℓ} → (Bytes → A) → ℕ → A → List Extension → A
last_of read k d [] = d
last_of read k d (x ∷ xs) = last_of read k (if x.kind == k then read x.body else d) xs

-- The protocol names that an ALPN body lists.
unfoldable pub alpn_of : Bytes → List Bytes
alpn_of body = elim (parse_alpn body) [ none ↦ [] | some protos ↦ protos ]

-- What the message says.
abbrev pub hello_of : Wire → ClientHello
hello_of w = record {
  legacy_version = w.legacy_version;
  cipher_suites = drop_grease w.cipher_suites;
  extensions = drop_grease (map (λ x. x.kind) (listed w.extensions));
  supported_versions =
      last_of parse_uint16_list_with_prefix8 ext_supported_versions [] (listed w.extensions);
  signature_algorithms =
      last_of parse_uint16_list_with_prefix16 ext_signature_algorithms [] (listed w.extensions);
  alpn_protocols = last_of alpn_of ext_alpn [] (listed w.extensions);
  has_sni = any (λ x. x.kind == ext_server_name) (listed w.extensions);
}
