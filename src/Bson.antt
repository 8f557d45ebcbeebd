-- ===== src/Bson.antt =====
-- A BSON document as the sequence of its elements: what the extension hands to the
-- `bson_append_*` functions of libbson in order, and what `bson_iter_visit_all` hands back in the
-- same order. The library itself is not modelled.
use dotdeb_php_mongodb.Prelude.{ℕ, ℤ, Bytes, Bool, ◌≡◌, refl, ap}

-- The element types of BSON. A double and a decimal are kept as their bits, an ObjectID as its
-- twelve bytes; a timestamp has its seconds first and its increment second.
mutual
  pub data Bson : Type 0 where
    double : ℕ → Bson
    utf8 : Bytes → Bson
    document : Doc → Bson
    array : Doc → Bson
    binary : ℕ → Bytes → Bson
    undefined : Bson
    oid : Bytes → Bson
    bool : Bool → Bson
    date_time : ℤ → Bson
    null : Bson
    regex : Bytes → Bytes → Bson
    dbpointer : Bytes → Bytes → Bson
    code : Bytes → Bson
    symbol : Bytes → Bson
    codewscope : Bytes → Doc → Bson
    int32 : ℤ → Bson
    timestamp : ℕ → ℕ → Bson
    int64 : ℤ → Bson
    decimal128 : ℕ → ℕ → Bson
    maxkey : Bson
    minkey : Bson

  -- The iteration ends at the end of the document, at corrupt data, or at an element whose type
  -- code libbson does not know (its key and its code). A document under construction ends well.
  pub data Doc : Type 0 where
    finish : Doc
    corrupt : Doc
    unsupported : Bytes → ℕ → Doc
    element : Bytes → Bson → Doc → Doc

-- The elements of one document before those of another; nothing follows data that is corrupt.
infixr 65 ◌+++◌
unfoldable pub ◌+++◌ : Doc → Doc → Doc
finish +++ e = e
corrupt +++ e = corrupt
unsupported k c +++ e = unsupported k c
element k b d +++ e = element k b (d +++ e)

-- A document with one element.
abbrev pub single : Bytes → Bson → Doc
single k b = element k b finish

pub +++-finish : (d : Doc) → d +++ finish ≡ d
unfolding ◌+++◌
+++-finish finish = refl
+++-finish corrupt = refl
+++-finish (unsupported k c) = refl
+++-finish (element k b d) = ap (element k b) (+++-finish d)

pub +++_assoc : (a b c : Doc) → (a +++ b) +++ c ≡ a +++ (b +++ c)
unfolding ◌+++◌
+++_assoc finish b c = refl
+++_assoc corrupt b c = refl
+++_assoc (unsupported k t) b c = refl
+++_assoc (element k v d) b c = ap (element k v) (+++_assoc d b c)
