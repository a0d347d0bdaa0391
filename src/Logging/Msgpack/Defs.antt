-- ===== src/Logging/Msgpack/Defs.antt =====
-- internal/logging/msgpack.go: the encoder. Bytes are numbers below 256; a function that appends to
-- the buffer gives the bytes that it appends.
use Prim.Native.Nat.{bit_or}
use haribon.Prelude.{
  ℕ, suc, ◌-◌, ◌/◌, ◌%◌, ◌^◌, Bool, true, false, ◌&&◌, ◌||◌, List, [], ◌∷◌, ◌++◌, length, ltb, leb,
  ◌==◌, ℤ, pos, negsuc, if◌then◌else◌,
}

-- The Go values that packValue tells apart. The integer types are two constructors, and a float is
-- the bit pattern that math.Float64bits gives. A map's fields stand in any order.
mutual
  pub data Value : Type 0 where
    nil unsupported : Value
    bool : Bool → Value
    string : List ℕ → Value
    int : ℤ → Value
    uint : ℕ → Value
    float : ℕ → Value
    map : Fields → Value
    array : Items → Value

  pub data Items : Type 0 where
    done : Items
    item : Value → Items → Items

  pub data Fields : Type 0 where
    end : Fields
    field : List ℕ → Value → Fields → Fields

unfoldable pub write_uint16 : ℕ → List ℕ
write_uint16 v = (v / 2 ^ 8) ∷ (v % 2 ^ 8) ∷ []

unfoldable pub write_uint32 : ℕ → List ℕ
write_uint32 v = (v / 2 ^ 24) ∷ (v / 2 ^ 16 % 2 ^ 8) ∷ (v / 2 ^ 8 % 2 ^ 8) ∷ (v % 2 ^ 8) ∷ []

unfoldable pub write_uint64 : ℕ → List ℕ
unfolding write_uint32
write_uint64 v = write_uint32 (v / 2 ^ 32) ++ write_uint32 (v % 2 ^ 32)

unfoldable pub pack_array_header : ℕ → List ℕ
unfolding write_uint16 write_uint32
pack_array_header n =
    if ltb n 16
    then bit_or 0x90 n ∷ []
    else if leb n 65535
    then 0xdc ∷ write_uint16 (n % 2 ^ 16)
    else 0xdd ∷ write_uint32 (n % 2 ^ 32)

unfoldable pub pack_map_header : ℕ → List ℕ
unfolding write_uint16 write_uint32
pack_map_header n =
    if ltb n 16
    then bit_or 0x80 n ∷ []
    else if leb n 65535
    then 0xde ∷ write_uint16 (n % 2 ^ 16)
    else 0xdf ∷ write_uint32 (n % 2 ^ 32)

-- The header of packString.
unfoldable pub pack_string_header : ℕ → List ℕ
unfolding write_uint16 write_uint32
pack_string_header n =
    if ltb n 32
    then bit_or 0xa0 n ∷ []
    else if leb n 255
    then 0xd9 ∷ (n % 2 ^ 8) ∷ []
    else if leb n 65535
    then 0xda ∷ write_uint16 (n % 2 ^ 16)
    else 0xdb ∷ write_uint32 (n % 2 ^ 32)

unfoldable pub pack_string : List ℕ → List ℕ
unfolding pack_string_header
pack_string s = pack_string_header (length s) ++ s

unfoldable pub pack_uint : ℕ → List ℕ
unfolding write_uint16 write_uint32 write_uint64
pack_uint v =
    if ltb v 128
    then v ∷ []
    else if leb v 255
    then 0xcc ∷ v ∷ []
    else if leb v 65535
    then 0xcd ∷ write_uint16 v
    else if leb v 4294967295
    then 0xce ∷ write_uint32 v
    else 0xcf ∷ write_uint64 v

-- packInt; at -(n + 1) the conversion to w bits gives 2^w - 1 - n.
unfoldable pub pack_int : ℤ → List ℕ
unfolding pack_uint write_uint16 write_uint32 write_uint64
pack_int (pos n) = pack_uint n
pack_int (negsuc n) =
    if ltb n 32
    then (2 ^ 8 - 1 - n) ∷ []
    else if ltb n 128
    then 0xd0 ∷ (2 ^ 8 - 1 - n) ∷ []
    else if ltb n 32768
    then 0xd1 ∷ write_uint16 (2 ^ 16 - 1 - n)
    else if ltb n 2147483648
    then 0xd2 ∷ write_uint32 (2 ^ 32 - 1 - n)
    else 0xd3 ∷ write_uint64 (2 ^ 64 - 1 - n)

unfoldable pub pack_float64 : ℕ → List ℕ
unfolding write_uint64
pack_float64 bits = 0xcb ∷ write_uint64 bits

unfoldable pub count_items : Items → ℕ
count_items done = 0
count_items (item v vs) = suc (count_items vs)

unfoldable pub count_fields : Fields → ℕ
count_fields end = 0
count_fields (field k v fs) = suc (count_fields fs)

-- The order of sort.Strings: byte by byte, a prefix first.
unfoldable pub bytes_le : List ℕ → List ℕ → Bool
bytes_le [] ys = true
bytes_le (x ∷ xs) [] = false
bytes_le (x ∷ xs) (y ∷ ys) = ltb x y || (x == y && bytes_le xs ys)

-- What sort.Strings makes of the keys, with the values at their keys.
unfoldable pub insert_field : List ℕ → Value → Fields → Fields
unfolding bytes_le
insert_field k v end = field k v end
insert_field k v (field j w fs) =
    if bytes_le k j then field k v (field j w fs) else field j w (insert_field k v fs)

unfoldable pub sort_fields : Fields → Fields
unfolding insert_field
sort_fields end = end
sort_fields (field k v fs) = insert_field k v (sort_fields fs)

-- Every map in the value, its fields in the order in which packMap writes them.
unfoldable mutual
  unfolding sort_fields

  pub sorted : Value → Value
  sorted nil = nil
  sorted unsupported = unsupported
  sorted (bool b) = bool b
  sorted (string s) = string s
  sorted (int z) = int z
  sorted (uint n) = uint n
  sorted (float n) = float n
  sorted (map fs) = map (sort_fields (sorted_fields fs))
  sorted (array vs) = array (sorted_items vs)

  pub sorted_items : Items → Items
  sorted_items done = done
  sorted_items (item v vs) = item (sorted v) (sorted_items vs)

  pub sorted_fields : Fields → Fields
  sorted_fields end = end
  sorted_fields (field k v fs) = field k (sorted v) (sorted_fields fs)

-- packValue, over a value whose maps are sorted
unfoldable mutual
  unfolding pack_string pack_int pack_uint pack_float64 pack_map_header pack_array_header
      count_items count_fields

  pub pack_sorted : Value → List ℕ
  pack_sorted nil = 0xc0 ∷ []
  pack_sorted unsupported = 0xc0 ∷ []
  pack_sorted (bool true) = 0xc3 ∷ []
  pack_sorted (bool false) = 0xc2 ∷ []
  pack_sorted (string s) = pack_string s
  pack_sorted (int z) = pack_int z
  pack_sorted (uint n) = pack_uint n
  pack_sorted (float bits) = pack_float64 bits
  pack_sorted (map fs) = pack_map_header (count_fields fs) ++ pack_fields fs
  pack_sorted (array vs) = pack_array_header (count_items vs) ++ pack_items vs

  pub pack_items : Items → List ℕ
  pack_items done = []
  pack_items (item v vs) = pack_sorted v ++ pack_items vs

  pub pack_fields : Fields → List ℕ
  pack_fields end = []
  pack_fields (field k v fs) = pack_string k ++ (pack_sorted v ++ pack_fields fs)

unfoldable pub pack_value : Value → List ℕ
unfolding sorted pack_sorted
pack_value v = pack_sorted (sorted v)

-- packForwardMessage: [tag, time, record]
unfoldable pub pack_forward_message : List ℕ → ℤ → Fields → List ℕ
unfolding pack_array_header pack_string pack_int pack_value
pack_forward_message tag unix_time record_fields =
    pack_array_header 3
    ++ (pack_string tag ++ (pack_int unix_time ++ pack_value (map record_fields)))
