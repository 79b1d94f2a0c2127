-- ===== src/Torrent/Bencode/Order.antt =====
-- The order of the keys, and the laws of the map that a dict decodes into.
use pt_reseeder.Base.{◌≡◌, refl, ap, ◌∙◌, true, false, some, [], ◌∷◌, arith, if◌then◌else◌}
use pt_reseeder.Base.Text.{Text, text_eq, text_eq_iff}
use pt_reseeder.Torrent.Bencode.{BencodeValue, Fields, no_fields, field, key_lt, insert, get}

pub key_lt_trans : (a b c : Text) → key_lt a b ≡ true → key_lt b c ≡ true → key_lt a c ≡ true
unfolding key_lt
key_lt_trans [] [] c h k = cc
key_lt_trans [] (b ∷ bs) [] h k = cc
key_lt_trans [] (b ∷ bs) (c ∷ cs) h k = refl
key_lt_trans (a ∷ as') [] c h k = cc
key_lt_trans (a ∷ as') (b ∷ bs) [] h k = cc
key_lt_trans (a ∷ as') (b ∷ bs) (c ∷ cs) h k = ground (arith, key_lt_trans as' bs cs)

pub key_lt_irrefl : (a : Text) → key_lt a a ≡ false
unfolding key_lt
key_lt_irrefl [] = refl
key_lt_irrefl (a ∷ as') = ground (arith, key_lt_irrefl as')

-- Two different keys that are not in order are in the other order.
pub key_lt_total : (a b : Text) → text_eq a b ≡ false → key_lt a b ≡ false → key_lt b a ≡ true
unfolding key_lt text_eq
key_lt_total [] [] h k = cc
key_lt_total [] (b ∷ bs) h k = cc
key_lt_total (a ∷ as') [] h k = refl
key_lt_total (a ∷ as') (b ∷ bs) h k = ground (arith, key_lt_total as' bs)

-- Every key of the map is above `k`; and the keys rise.
abbrev pub Above : Text → Fields → Type 0
Above k no_fields = Unit
Above k (field j w fs) = (key_lt k j ≡ true) × Above k fs

abbrev pub IsSorted : Fields → Type 0
IsSorted no_fields = Unit
IsSorted (field k v fs) = Above k fs × IsSorted fs

abbrev pub Below : Fields → Text → Type 0
Below no_fields k = Unit
Below (field j w fs) k = (key_lt j k ≡ true) × Below fs k

Above-trans : (a b : Text) (fs : Fields) → key_lt a b ≡ true → Above b fs → Above a fs
Above-trans a b no_fields h k = tt
Above-trans a b (field j w fs) h k = (key_lt_trans a b j h k.0, Above-trans a b fs h k.1)

Above-insert :
    (a k : Text) (v : BencodeValue) (fs : Fields)
    → key_lt a k ≡ true
    → Above a fs
    → Above a (insert k v fs)
unfolding insert
Above-insert a k v no_fields h s = (h, tt)
Above-insert a k v (field j w fs) h s = ground (arith, Above-insert a k v fs h s.1)

-- `BTreeMap::insert` keeps the keys in order, each once.
pub insert-IsSorted :
    (k : Text) (v : BencodeValue) (fs : Fields) → IsSorted fs → IsSorted (insert k v fs)
unfolding insert
insert-IsSorted k v no_fields s = (tt, tt)
insert-IsSorted k v (field j w fs) s = ground (
  arith,
  insert-IsSorted k v fs s.1,
  (text_eq_iff k j).0,
  key_lt_total k j,
  Above-insert j k v fs,
  Above-trans k j fs,
)

-- Looking up after an insertion.
pub get-insert :
    (k j : Text) (v : BencodeValue) (fs : Fields)
    → get j (insert k v fs) ≡ (if text_eq j k then some v else get j fs)
unfolding insert get
get-insert k j v no_fields = refl
get-insert k j v (field i w fs) =
    ground (arith, text_eq_iff k i, text_eq_iff j k, text_eq_iff j i, get-insert k j v fs)

abbrev pub snoc : Fields → Text → BencodeValue → Fields
snoc no_fields k v = field k v no_fields
snoc (field j w fs) k v = field j w (snoc fs k v)

abbrev pub append_fields : Fields → Fields → Fields
append_fields no_fields gs = gs
append_fields (field k v fs) gs = field k v (append_fields fs gs)

-- A key above all others goes to the end.
insert-snoc : (k : Text) (v : BencodeValue) (fs : Fields) → Below fs k → insert k v fs ≡ snoc fs k v
unfolding insert
insert-snoc k v no_fields h = refl
insert-snoc k v (field j w fs) h =
    ground (arith, insert-snoc k v fs h.1, text_eq_iff k j, key_lt_irrefl k, key_lt_trans k j k)

-- What the loop of `decode_dict` makes of entries in the order read.
unfoldable pub insert_all : Fields → Fields → Fields
insert_all m no_fields = m
insert_all m (field k v fs) = insert_all (insert k v m) fs

abbrev AllBelow : Fields → Fields → Type 0
AllBelow m no_fields = Unit
AllBelow m (field k v fs) = Below m k × AllBelow m fs

AllBelow-snoc :
    (m : Fields) (k : Text) (v : BencodeValue) (fs : Fields)
    → AllBelow m fs
    → Above k fs
    → AllBelow (snoc m k v) fs
AllBelow-snoc m k v no_fields h a = tt
AllBelow-snoc m k v (field j w fs) h a = (Below-snoc m h.0, AllBelow-snoc m k v fs h.1 a.1)
  where
    Below-snoc : (m : Fields) → Below m j → Below (snoc m k v) j
    Below-snoc no_fields b = (a.0, tt)
    Below-snoc (field i u m) b = (b.0, Below-snoc m b.1)

append-snoc :
    (m : Fields) (k : Text) (v : BencodeValue) (fs : Fields)
    → append_fields (snoc m k v) fs ≡ append_fields m (field k v fs)
append-snoc no_fields k v fs = refl
append-snoc (field j w m) k v fs = ap (field j w) (append-snoc m k v fs)

insert_all-append :
    (m fs : Fields) → IsSorted fs → AllBelow m fs → insert_all m fs ≡ append_fields m fs
unfolding insert_all
insert_all-append m no_fields s b = append-nil m
  where
    append-nil : (m : Fields) → m ≡ append_fields m no_fields
    append-nil no_fields = refl
    append-nil (field k v m) = ap (field k v) (append-nil m)
insert_all-append m (field k v fs) s b =
    rw (insert-snoc k v m b.0) (
      insert_all-append (snoc m k v) fs s.1 (AllBelow-snoc m k v fs b.1 s.0) ∙ append-snoc m k v fs)

AllBelow-nil : (fs : Fields) → AllBelow no_fields fs
AllBelow-nil no_fields = tt
AllBelow-nil (field k v fs) = (tt, AllBelow-nil fs)

-- Inserting the entries of a sorted map one after the other gives that map.
pub insert_all-IsSorted : (fs : Fields) → IsSorted fs → insert_all no_fields fs ≡ fs
insert_all-IsSorted fs s = insert_all-append no_fields fs s (AllBelow-nil fs)
