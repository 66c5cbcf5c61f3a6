-- ===== src/Serde/Objects/Dicts.antt =====
-- DictSerde: the pairs of its keys and values make the dict again.
use pyservicelib.Base.{
  ℕ, ◌+◌, ◌^◌, ◌<◌, ◌≡◌, refl, ap, false, List, [], ◌∷◌, ◌++◌, arith, length, length-append,
  append_assoc, append-nil, All, All-map_two, All-append, Result, ok,
}
use pyservicelib.Serde.Struct.{Bytes, be_bytes}
use pyservicelib.Serde.Struct.Laws.{length-be_bytes}
use pyservicelib.Serde.Framing.Laws.{framed_lem, read_sized_lem}
use pyservicelib.Serde.Scalars.{Floats}
use pyservicelib.Serde.Scalars.Laws.{Codes}
use pyservicelib.Serde.Values.{
  Value, list, dict, Dynamic, Entries, items, pairs, elements-items, entries-pairs, iterate,
  set_item, dict_zip,
}
use pyservicelib.Serde.Wrappers.{dict_serialize_obj, dict_deserialize_obj}
use pyservicelib.Serde.Objects.Fits.{AreKeys, IsNew, keys_of, values_of}

module _ {F : Type 0} (dyn : Dynamic F) where
  set_item_new :
      (k v : Value F) (m : List (Value F × Value F))
      → IsNew dyn k m
      → set_item dyn k v m ≡ m ++ ((k, v) ∷ [])
  unfolding set_item
  set_item_new k v [] h = refl
  set_item_new k v ((j, w) ∷ m) (h, hs) = rw h (ap (◌∷◌ (j, w)) (set_item_new k v m hs))

  -- Distinct keys are appended in their order.
  dict_zip-append :
      (acc m : List (Value F × Value F))
      → AreKeys dyn m
      → All (λ e. IsNew dyn e.0 acc) m
      → dict_zip dyn acc (keys_of m) (values_of m) ≡ ok (acc ++ m)
  unfolding dict_zip
  dict_zip-append acc [] keys new = rw append-nil
  dict_zip-append acc ((k, v) ∷ m) (hash, other, keys) (new, news) =
      let later =
        All-map_two
          (λ e old ne.
            All-append (λ d. dyn.same_key d.0 e.0 ≡ false) acc ((k, v) ∷ []) old (ne, tt))
          m news other in
      rw (set_item_new k v acc new, hash, dict_zip-append (acc ++ ((k, v) ∷ [])) m keys later)
        (rw append_assoc)

  no_news : (m : List (Value F × Value F)) → All (λ e. IsNew dyn e.0 []) m
  no_news [] = tt
  no_news (e ∷ m) = (tt, no_news m)

module _ (fl : Floats) (dyn : Dynamic fl.Float) where
  open fl use {Float}

  pub dict-Codes :
      {write_keys write_values : Value Float → Bytes → Result Bytes}
      {read_keys read_values : Bytes → Result (Value Float)} (m : Entries Float) {n k : ℕ}
      → AreKeys dyn (pairs m)
      → Codes write_keys read_keys (list (items (keys_of (pairs m)))) n
      → n < 2 ^ 64
      → Codes write_values read_values (list (items (values_of (pairs m)))) k
      → k < 2 ^ 64
      → Codes
          (dict_serialize_obj fl write_keys write_values)
          (dict_deserialize_obj fl dyn read_keys read_values)
          (dict m)
          (16 + (n + k))
  unfolding dict_serialize_obj dict_deserialize_obj iterate
  dict-Codes {write_keys} {write_values} {read_keys} {read_values} m keys ck hk cv hv =
      let sk : length ck.code < 2 ^ 64 = omega (arith, ck.code_length) in
      let sv : length cv.code < 2 ^ 64 = omega (arith, cv.code_length) in
      let head = be_bytes 8 (length ck.code) ++ ck.code in
      let tail = be_bytes 8 (length cv.code) ++ cv.code in
      record {
        code = head ++ tail;
        code_length = omega (
          arith,
          length-append head tail,
          length-append (be_bytes 8 (length ck.code)) ck.code,
          length-append (be_bytes 8 (length cv.code)) cv.code,
          length-be_bytes 8 (length ck.code),
          length-be_bytes 8 (length cv.code),
          ck.code_length,
          cv.code_length,
        );
        written = λ b.
            rw
              (
                framed_lem (write_keys (list (items (keys_of (pairs m))))) b ck.code sk
                    (ck.written _),
                framed_lem (write_values (list (items (values_of (pairs m))))) (b ++ head) cv.code
                    sv (cv.written _),
              )
              (rw append_assoc);
        read = λ rest.
            let flat : (head ++ tail) ++ rest
                ≡ be_bytes 8 (length ck.code)
                  ++ (ck.code ++ (be_bytes 8 (length cv.code) ++ (cv.code ++ rest))) =
              simp append_assoc in
            let keys_read : read_keys ck.code ≡ ok (list (items (keys_of (pairs m)))) =
              rw append-nil at (ck.read []) in
            let values_read : read_values cv.code ≡ ok (list (items (values_of (pairs m)))) =
              rw append-nil at (cv.read []) in
            rw (
              flat,
              read_sized_lem ck.code _ sk,
              keys_read,
              read_sized_lem cv.code rest sv,
              values_read,
              elements-items (keys_of (pairs m)),
              elements-items (values_of (pairs m)),
              dict_zip-append dyn [] (pairs m) keys (no_news dyn (pairs m)),
              entries-pairs m,
            );
      }
