-- ===== src/Values/Encode.antt =====
-- `value_buffer_encode` of src/reactor/encode.c: the state machine that prints a value as JSON. What
-- `snprintf` prints for a number, and `qsort`, are parameters; the text is the list of bytes of the
-- buffer.
pub mod Texts
pub mod Printed
pub mod Total
use libreactorng.Prelude.{
  ℕ, zero, suc, ◌+◌, ◌-◌, ◌*◌, Bool, true, false, ◌&&◌, not, Option, none, some, List, [], ◌∷◌,
  ◌++◌, ◌==◌, if◌then◌else◌, ◌>>=◌, length, replicate, get_elem?,
}
use libreactorng.Data.{Data}
use libreactorng.Strings
use libreactorng.Strings.Json
use libreactorng.Values
use libreactorng.Values.{
  Value, Elements, Entries, undefined, null, boolean, number, string, array, object,
}

pub data State : Type 0 where
  state_value_start : State
  state_value_end : State
  state_null : State
  state_bool : State
  state_number : State
  state_string : State
  state_array_first : State
  state_array_rest : State
  state_object_first : State
  state_object_rest : State
  state_accept : State
  state_reject : State

-- What the function returns in the last states.
abbrev pub verdict : State → Option Bool
verdict state_accept = some true
verdict state_reject = some false
verdict _ = none

-- The keys are NULL for an array.
pub record Context : Type 0 where
  pub value : Value
  pub keys : Option (List (List ℕ))
  pub index : ℕ

-- The variables of the loop; the stack has its back in front.
pub record Machine : Type 0 where
  pub state : State
  pub value : Value
  pub stack : List Context
  pub buffer : List ℕ

-- A state for each type of value.
unfoldable pub start_state : Value → State
start_state undefined = state_reject
start_state null = state_null
start_state (boolean b) = state_bool
start_state (number n) = state_number
start_state (string s) = state_string
start_state (array vs) = state_array_first
start_state (object es) = state_object_first

abbrev pub end_state : List Context → State
end_state [] = state_accept
end_state (c ∷ stack) = elim c.keys [ some keys ↦ state_object_rest | none ↦ state_array_rest ]

-- `value_array_length`, and `value_array_get`, which is undefined for what is no array.
abbrev pub value_length : Value → ℕ
value_length (array vs) = Values.array_length vs
value_length _ = 0

abbrev pub value_get : Value → ℕ → Option Value
value_get (array vs) i = Values.array_get vs i
value_get _ i = some undefined

abbrev pub value_object_get : Value → List ℕ → Value
value_object_get (object es) key = Values.object_get es key
value_object_get _ key = undefined

-- `value_bool_get`, `value_number_get` and `value_string_get`; the token of the number 0 is 0.
abbrev pub bool_get : Value → Bool
bool_get (boolean b) = b
bool_get _ = false

abbrev pub number_get : Value → ℕ
number_get (number n) = n
number_get _ = 0

abbrev pub string_get : Value → List ℕ
string_get (string s) = s
string_get _ = []

-- "null", "true" and "false"
abbrev pub null_text : List ℕ
null_text = b'n' ∷ b'u' ∷ b'l' ∷ b'l' ∷ []

abbrev pub bool_text : Bool → List ℕ
bool_text true = b't' ∷ b'r' ∷ b'u' ∷ b'e' ∷ []
bool_text false = b'f' ∷ b'a' ∷ b'l' ∷ b's' ∷ b'e' ∷ []

-- A line feed and two spaces for each level.
unfoldable pub new_line : ℕ → List ℕ → List ℕ
new_line n buffer = buffer ++ (10 ∷ replicate (n * 2) b' ')

unfoldable pub encode_string : Bool → List ℕ → List ℕ → Option (List ℕ)
encode_string ascii buffer s =
    Json.encode (suc (length s)) ascii (buffer ++ (b'"' ∷ [])) s >>= λ t. some (t ++ (b'"' ∷ []))

module _ (pretty ascii : Bool) (print : ℕ → List ℕ) (sort : List (List ℕ) → List (List ℕ)) where
  unfoldable pub object_keys : Value → List (List ℕ)
  object_keys (object es) = sort (Values.table_keys es)
  object_keys _ = sort []

  -- The closing bracket of an array or an object with `n` contexts left on the stack.
  unfoldable pub close : (n index bracket : ℕ) → List ℕ → List ℕ
  unfolding new_line
  close n index bracket buffer =
      (if pretty && not (index == 0) then new_line n buffer else buffer) ++ (bracket ∷ [])

  -- The comma and the line in front of an element.
  unfoldable pub separate : (n index : ℕ) → List ℕ → List ℕ
  unfolding new_line
  separate n index buffer =
      let b = (if index == 0 then buffer else buffer ++ (b',' ∷ [])) in
      if pretty then new_line n b else b

  abbrev pub colon : List ℕ
  colon = if pretty then b':' ∷ b' ' ∷ [] else b':' ∷ []

  unfoldable pub step_array : Machine → List Context → Option Machine
  unfolding close separate
  step_array m [] = none
  step_array m (c ∷ stack) =
      let more = value_get c.value c.index >>= λ v. some (record {
        state = state_value_start;
        value = v;
        stack = record c { index = c.index + 1 } ∷ stack;
        buffer = separate (length (c ∷ stack)) c.index m.buffer;
      }) in
      if c.index == value_length c.value
      then some (record m {
        state = state_value_end;
        stack = stack;
        buffer = close (length stack) c.index b']' m.buffer;
      })
      else more

  -- The keys of the context are given.
  unfoldable pub step_keys : Machine → Context → List Context → List (List ℕ) → Option Machine
  unfolding close separate encode_string
  step_keys m c stack keys =
      let more = get_elem? keys c.index >>= λ key.
      encode_string ascii (separate (length (c ∷ stack)) c.index m.buffer) key >>= λ t.
      some (record {
        state = state_value_start;
        value = value_object_get c.value key;
        stack = record c { index = c.index + 1 } ∷ stack;
        buffer = t ++ colon;
      }) in
      if c.index == length keys
      then some (record m {
        state = state_value_end;
        stack = stack;
        buffer = close (length stack) c.index b'}' m.buffer;
      })
      else more

  unfoldable pub step_object : Machine → List Context → Option Machine
  unfolding step_keys
  step_object m [] = none
  step_object m (c ∷ stack) = c.keys >>= λ keys. step_keys m c stack keys

  -- One round of `while (1)`; accepting and rejecting states stay.
  unfoldable pub step : Machine → Option Machine
  unfolding start_state encode_string step_array step_object object_keys
  step m = elim m.state [
    | state_value_start ↦ some (record m { state = start_state m.value })
    | state_value_end ↦ some (record m { state = end_state m.stack })
    | state_null ↦ some (record m { state = state_value_end; buffer = m.buffer ++ null_text })
    | state_bool ↦
        some
          (record m { state = state_value_end; buffer = m.buffer ++ bool_text (bool_get m.value) })
    | state_number ↦
        some (record m { state = state_value_end; buffer = m.buffer ++ print (number_get m.value) })
    | state_string ↦ encode_string ascii m.buffer (string_get m.value) >>= λ t.
        some (record m { state = state_value_end; buffer = t })
    | state_array_first ↦ some (record m {
      state = state_array_rest;
      buffer = m.buffer ++ (b'[' ∷ []);
      stack = record { value = m.value; keys = none; index = 0 } ∷ m.stack;
    })
    | state_array_rest ↦ step_array m m.stack
    | state_object_first ↦ some (record m {
      state = state_object_rest;
      buffer = m.buffer ++ (b'{' ∷ []);
      stack = record { value = m.value; keys = some (object_keys m.value); index = 0 } ∷ m.stack;
    })
    | state_object_rest ↦ step_object m m.stack
    | state_accept ↦ some m
    | state_reject ↦ some m
  ]

  unfoldable pub run : (fuel : ℕ) → Machine → Option (List ℕ × Bool)
  unfolding step
  run zero m = none
  run (suc fuel) m = elim (verdict m.state) [
    | some b ↦ some (m.buffer, b)
    | none ↦ step m >>= λ q. run fuel q
  ]

  unfoldable pub buffer_encode : (fuel : ℕ) → List ℕ → Value → Option (List ℕ × Bool)
  unfolding run
  buffer_encode fuel buffer value =
      run fuel (record { state = state_value_start; value = value; stack = []; buffer = buffer })

  -- The printed text as a NUL-terminated string, or the empty string for what cannot be printed.
  unfoldable pub encode : (fuel : ℕ) → Value → Option Data
  encode fuel value = buffer_encode fuel [] value >>= λ r. some (
      if r.1
      then record { iov_base = some (r.0 ++ (0 ∷ [])); iov_len = length r.0 }
      else Strings.null)
