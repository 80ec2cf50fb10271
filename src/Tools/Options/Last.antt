-- ===== src/Tools/Options/Last.antt =====
-- The loop over the options of litepcie_util.c: the last option of a kind counts.
use litepcie_ptm_test.Base.{
  ℕ, Bool, false, List, [], ◌∷◌, Option, none, some, ◌==◌, ◌||◌, if◌then◌else◌, ◌≡◌, refl,
  ℕ_discrete, arith, ap, ◌∙◌, inl, inr, true, false, Bool-cases,
}
use litepcie_ptm_test.Tools.{Word, atoi}
use litepcie_ptm_test.Tools.Options.{
  Opt, Options, Parsed, help, rejected, parsed, util_option, option_loop,
}

abbrev or_earlier {ℓ} : {A : Type ℓ} → Option A → Option A → Option A
or_earlier none earlier = earlier
or_earlier (some a) earlier = some a

-- The argument of the last option with a letter.
unfoldable pub last_arg : ℕ → List Opt → Option Word
last_arg c [] = none
last_arg c (p ∷ ps) = or_earlier (last_arg c ps) (if p.letter == c then some (p.optarg) else none)

abbrev number_or : ℕ → Option Word → ℕ
number_or start none = start
number_or start (some w) = atoi w

abbrev flag_or : ℕ → Option Word → ℕ
flag_or start none = start
flag_or start (some w) = 1

-- The letter of the first option that sets no variable.
abbrev sets : ℕ → Bool
sets c = (c == b'c') || (c == b'w') || (c == b'z') || (c == b'e') || (c == b'a')

unfoldable pub first_other : List Opt → Option ℕ
first_other [] = none
first_other (p ∷ ps) =
    let rest = first_other ps in if sets (p.letter) then rest else some (p.letter)

unfoldable pub stopped : Option ℕ → Options → Parsed
stopped none o = parsed o
stopped (some c) o = if c == b'h' then help else rejected

unfoldable pub last_options : List Opt → Options → Options
last_options ps o = record {
  device_num = number_or (o.device_num) (last_arg b'c' ps);
  data_width = number_or (o.data_width) (last_arg b'w' ps);
  zero_copy = flag_or (o.zero_copy) (last_arg b'z' ps);
  external_loopback = flag_or (o.external_loopback) (last_arg b'e' ps);
  auto_rx_delay = flag_or (o.auto_rx_delay) (last_arg b'a' ps);
}

-- What one option sets.
abbrev set_by : Opt → Options → Options
set_by p o = record {
  device_num = if p.letter == b'c' then atoi p.optarg else o.device_num;
  data_width = if p.letter == b'w' then atoi p.optarg else o.data_width;
  zero_copy = if p.letter == b'z' then 1 else o.zero_copy;
  external_loopback = if p.letter == b'e' then 1 else o.external_loopback;
  auto_rx_delay = if p.letter == b'a' then 1 else o.auto_rx_delay;
}

number_or-earlier :
    (t : Bool) (start : ℕ) (a : Option Word) (w : Word)
    → number_or start (or_earlier a (if t then some w else none))
      ≡ number_or (if t then atoi w else start) a
number_or-earlier true start none w = refl
number_or-earlier true start (some a) w = refl
number_or-earlier false start none w = refl
number_or-earlier false start (some a) w = refl

flag_or-earlier :
    (t : Bool) (start : ℕ) (a : Option Word) (w : Word)
    → flag_or start (or_earlier a (if t then some w else none)) ≡ flag_or (if t then 1 else start) a
flag_or-earlier true start none w = refl
flag_or-earlier true start (some a) w = refl
flag_or-earlier false start none w = refl
flag_or-earlier false start (some a) w = refl

last_arg-cons :
    (c : ℕ) (p : Opt) (ps : List Opt)
    → last_arg c (p ∷ ps)
      ≡ or_earlier (last_arg c ps) (if p.letter == c then some (p.optarg) else none)
unfolding last_arg
last_arg-cons c p ps = refl

number_or-cons :
    (c start : ℕ) (p : Opt) (ps : List Opt)
    → number_or start (last_arg c (p ∷ ps))
      ≡ number_or (if p.letter == c then atoi p.optarg else start) (last_arg c ps)
number_or-cons c start p ps =
    ap (number_or start) (last_arg-cons c p ps)
    ∙ number_or-earlier (p.letter == c) start (last_arg c ps) p.optarg

flag_or-cons :
    (c start : ℕ) (p : Opt) (ps : List Opt)
    → flag_or start (last_arg c (p ∷ ps))
      ≡ flag_or (if p.letter == c then 1 else start) (last_arg c ps)
flag_or-cons c start p ps =
    ap (flag_or start) (last_arg-cons c p ps)
    ∙ flag_or-earlier (p.letter == c) start (last_arg c ps) p.optarg

last_options-cons :
    (p : Opt) (ps : List Opt) (o : Options) → last_options (p ∷ ps) o ≡ last_options ps (set_by p o)
unfolding last_options
last_options-cons p ps o =
    rw
      (
        number_or-cons b'c' o.device_num p ps,
        number_or-cons b'w' o.data_width p ps,
        flag_or-cons b'z' o.zero_copy p ps,
        flag_or-cons b'e' o.external_loopback p ps,
        flag_or-cons b'a' o.auto_rx_delay p ps,
      )
      refl

keeps : (o : Options) → option_loop util_option [] o ≡ parsed (last_options [] o)
unfolding option_loop last_options last_arg
keeps o = refl

abbrev other : Opt → Parsed
other p = if p.letter == b'h' then help else rejected

util_option_lem :
    (p : Opt) (o : Options)
    → util_option p o ≡ (if sets (p.letter) then parsed (set_by p o) else other p)
util_option_lem p o = elim (ℕ_discrete p.letter b'c') [
  | yes e ↦ rw e refl
  | no nc ↦ elim (ℕ_discrete p.letter b'w') [
    | yes e ↦ rw e refl
    | no nw ↦ elim (ℕ_discrete p.letter b'z') [
      | yes e ↦ rw e refl
      | no nz ↦ elim (ℕ_discrete p.letter b'e') [
        | yes e ↦ rw e refl
        | no ne ↦ elim (ℕ_discrete p.letter b'a') [ yes e ↦ rw e refl | no na ↦ ground arith ]
      ]
    ]
  ]
]

abbrev goes_on : (Opt → Options → Parsed) → List Opt → Parsed → Parsed
goes_on step ps help = help
goes_on step ps rejected = rejected
goes_on step ps (parsed o) = option_loop step ps o

option_loop-cons :
    (step : Opt → Options → Parsed) (p : Opt) (ps : List Opt) (o : Options) (q : Parsed)
    → step p o ≡ q
    → option_loop step (p ∷ ps) o ≡ goes_on step ps q
unfolding option_loop
option_loop-cons step p ps o help e = rw (option_loop, e) refl
option_loop-cons step p ps o rejected e = rw (option_loop, e) refl
option_loop-cons step p ps o (parsed o') e = rw (option_loop, e) refl

option_loop-other : (p : Opt) (ps : List Opt) → goes_on util_option ps (other p) ≡ other p
option_loop-other p ps = elim (Bool-cases (p.letter == b'h')) [
  | inl e ↦ rw e refl
  | inr e ↦ rw e refl
]

-- The options of litepcie_util, at whatever values the variables have before: if getopt(3) returns
-- letters of options that set a variable only, each number is that of the last option with its
-- letter, each flag is 1 if its letter occurs, and the others keep their value; else the first other
-- letter ends the program, with the help if it is `h`.
pub option_loop-util :
    (ps : List Opt) (o : Options)
    → option_loop util_option ps o ≡ stopped (first_other ps) (last_options ps o)
unfolding first_other stopped
option_loop-util [] o = keeps o
option_loop-util (p ∷ ps) o =
    let first = option_loop-cons util_option p ps o _ (util_option_lem p o) in
    elim (Bool-cases (sets p.letter)) [
      | inl known ↦ first ∙ rw (known, last_options-cons p ps o) (option_loop-util ps (set_by p o))
      | inr unknown ↦ first ∙ rw unknown (option_loop-other p ps)
    ]
