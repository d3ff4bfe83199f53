-- ===== src/Examples/Wires.antt =====
-- An encoding to run the data sets with: every number is one element, and a name is its text. A double,
-- which is a whole number here, stands before seven zeros.
use ndnproject.Prelude.{
  ==_refl, Bool, List, Option, Str, [], arith, drop, drop-length, false, if_true, if◌then◌else◌,
  length, length-append, nat_beq_iff, nat_eq, none, refl, some, str_beq, str_beq_iff, str_eq, suc,
  take, take-length, true, zero, ℕ, ◌++◌, ◌+◌, ◌<◌, ◌==◌, ◌||◌, ◌∷◌, ◌≡◌, ◌≤◌,
}
use ndnproject.Instances.{str_name, append_component, components}
use ndnproject.Publisher.Handler.{NdnCommand}
use ndnproject.Tlv.Blocks.{Block, Wire, blocks_bytes, block_bytes}

abbrev number : ℕ → Str
number k = k ∷ []

abbrev read_number : Str → Option ℕ
read_number (k ∷ []) = some k
read_number _ = none

unfoldable pub parse_elements : ℕ → Str → Option (List Block)
parse_elements zero bytes = none
parse_elements (suc turns) [] = some []
parse_elements (suc turns) (type ∷ []) = none
parse_elements (suc turns) (type ∷ size ∷ bytes) = elim (parse_elements turns (drop size bytes)) [
  | none ↦ none
  | some rest ↦ some (record { type = type; value = take size bytes } ∷ rest)
]

pub parse_elements_lem :
    (bs : List Block) (turns : ℕ)
    → length bs < turns
    → parse_elements turns (blocks_bytes number bs) ≡ some bs
unfolding parse_elements blocks_bytes block_bytes
parse_elements_lem bs zero enough = absurd (omega arith)
parse_elements_lem [] (suc turns) enough = refl
parse_elements_lem (b ∷ bs) (suc turns) enough =
    rw
      (
        drop-length b.value (blocks_bytes number bs),
        parse_elements_lem bs turns (omega arith),
        take-length b.value (blocks_bytes number bs),
      )
      refl

pub length-blocks_bytes : (bs : List Block) → length bs ≤ length (blocks_bytes number bs)
unfolding blocks_bytes block_bytes
length-blocks_bytes [] = omega arith
length-blocks_bytes (b ∷ bs) =
    omega (arith, length-blocks_bytes bs, length-append b.value (blocks_bytes number bs))

abbrev double_bytes : ℕ → Str
double_bytes x = x ∷ 0 ∷ 0 ∷ 0 ∷ 0 ∷ 0 ∷ 0 ∷ 0 ∷ []

abbrev read_double : Str → ℕ
read_double [] = 0
read_double (x ∷ bytes) = x

abbrev pub plain_wire : Wire Str ℕ
plain_wire = record {
  var_number = number;
  integer = number;
  read_integer = read_number;
  parse = λ bytes. parse_elements (suc (length bytes)) bytes;
  name_value = λ name. name;
  read_name = some;
  double_bytes = double_bytes;
  read_double = read_double;
  var_number-small = λ k small. refl;
  read-integer = λ k fits. refl;
  parse-blocks = λ bs.
      parse_elements_lem bs (suc (length (blocks_bytes number bs)))
        (omega (arith, length-blocks_bytes bs));
  read-name = λ name. refl;
  double_size = λ x. refl;
  read-double = λ x. refl;
}

-- The last component, which stands first in a name.
abbrev last_component : Str → Str
last_component [] = []
last_component (size ∷ s) = take size s

abbrev parent_name : Str → Str
parent_name [] = []
parent_name (size ∷ s) = drop size s

unfoldable pub is_within : ℕ → Str → Str → Bool
is_within zero prefix name = prefix == name
is_within (suc turns) prefix name = (prefix == name) || is_within turns prefix (parent_name name)

unfoldable pub component : ℕ → Str → ℕ → Str
component zero name index = []
component (suc turns) name index =
    let before = component turns (parent_name name) index in
    if components 0 (parent_name name) == index then last_component name else before

or_true : (b : Bool) → (b || true) ≡ true
or_true true = refl
or_true false = refl

is_within_refl : (turns : ℕ) (name : Str) → is_within turns name name ≡ true
unfolding is_within
is_within_refl zero name = ==_refl name
is_within_refl (suc turns) name = rw ((str_beq_iff name name).1 refl) refl

pub is_within-append :
    (name s : Str)
    → is_within (length (append_component name s)) name (append_component name s) ≡ true
unfolding is_within append_component
is_within-append name s =
    rw (drop-length s name, is_within_refl (length (s ++ name)) name)
      (or_true (str_beq name (length s ∷ s ++ name)))

pub component-append :
    (name s : Str)
    → component (length (append_component name s)) (append_component name s) (components 0 name) ≡ s
unfolding component append_component
component-append name s =
    rw (drop-length s name, take-length s name)
      (if_true _ _ _ ((nat_beq_iff (components 0 name) (components 0 name)).1 refl))

components-append : (s name : Str) → components (length s) (s ++ name) ≡ components 0 name
unfolding components
components-append [] name = refl
components-append (b ∷ s) name = components-append s name

pub size-append : (name s : Str) → components 0 (append_component name s) ≡ components 0 name + 1
unfolding components append_component
size-append name s = rw (components-append s name) (omega arith)

unfoldable pub is_above : Str → Str → Bool
unfolding is_within component
is_above prefix name =
    if components 0 name == components 0 prefix + 1
    then name == append_component prefix (component (length name) name (components 0 prefix))
    else is_within (length name) prefix name

pub is_above-append : (name s : Str) → is_above name (append_component name s) ≡ true
unfolding is_above
is_above-append name s = ground (
  arith,
  size-append name s,
  component-append name s,
  is_within-append name s,
  str_beq_iff (append_component name s) (
      append_component name (
        component (length (append_component name s)) (append_component name s)
          (components 0 name))),
)

pub is_above-child :
    (prefix name : Str)
    → components 0 name ≡ components 0 prefix + 1
    → is_above prefix name ≡ true
    → name ≡ append_component prefix (component (length name) name (components 0 prefix))
unfolding is_above
is_above-child prefix name one_more above = ground (
  arith,
  str_beq_iff name (append_component prefix (component (length name) name (components 0 prefix))),
)

abbrev pub plain_command : NdnCommand Str
plain_command = record {
  is_prefix_of = is_above;
  get = λ name index. component (length name) name index;
  is_prefix_of-append = is_above-append;
  get-append = component-append;
  size-append = size-append;
  child = is_above-child;
}
