-- ===== src/Cli/Search.antt =====
-- cli/bgp_cmdparser.cpp: which command a line of tokens finds.
use log2bgp.Base.{
  ℕ, suc, ◌≤◌, ◌≡◌, ◌↔◌, refl, sym, ap, subst, ◌∙◌, true, Option, none, some, List, [], ◌∷◌, ◌++◌,
  if◌then◌else◌, arith,
}
use log2bgp.Cli.{
  Command, Commands, no_command, ◌+:◌, name, sub_command, is_prefix, takes, find_root, find_sub,
  walk, down_to, walked, find_command,
}

-- A command of a vector.
pub data In (d : Command) : Commands → Type 0 where
  here : {c : Command} {cs : Commands} → c ≡ d → In d (c +: cs)
  later : {c : Command} {cs : Commands} → In d cs → In d (c +: cs)

-- How many commands of the root, and of a vector below a command, a token stands for.
unfoldable pub root_count : List ℕ → Commands → ℕ
root_count t no_command = 0
root_count t (c +: cs) = if is_prefix t (name c) then suc (root_count t cs) else root_count t cs

unfoldable pub sub_count : List ℕ → Commands → ℕ
sub_count t no_command = 0
sub_count t (c +: cs) = if takes t c then suc (sub_count t cs) else sub_count t cs

-- A path down from a command, by tokens that stand for one command each.
pub data Leads : Command → List (List ℕ) → Command → Type 0 where
  stop : {c : Command} → Leads c [] c
  down :
      {c d e : Command} {t : List ℕ} {ts : List (List ℕ)}
      → In d (sub_command c)
      → takes t d ≡ true
      → sub_count t (sub_command c) ≡ 1
      → Leads d ts e
      → Leads c (t ∷ ts) e

takes-here : (t : List ℕ) {c d : Command} → c ≡ d → takes t d ≡ true → takes t c ≡ true
takes-here t e h = subst (λ x. takes t x ≡ true) (sym e) h

sub_count-pos :
    (t : List ℕ) (d : Command) (cs : Commands) → In d cs → takes t d ≡ true → 1 ≤ sub_count t cs
unfolding sub_count
sub_count-pos t d no_command i h = elim i [ ]
sub_count-pos t d (c +: cs) (here e) h = ground (arith, takes-here t e h)
sub_count-pos t d (c +: cs) (later i) h = ground (arith, sub_count-pos t d cs i h)

find_sub-only :
    (t : List ℕ) (d : Command) (cs : Commands)
    → In d cs
    → takes t d ≡ true
    → sub_count t cs ≡ 1
    → find_sub t cs ≡ some d
unfolding sub_count find_sub
find_sub-only t d no_command i h k = elim i [ ]
find_sub-only t d (c +: cs) (here e) h k = rw (takes-here t e h) (ap some e)
find_sub-only t d (c +: cs) (later i) h k =
    ground (arith, sub_count-pos t d cs i h, find_sub-only t d cs i h)

pub walk-Leads : {c e : Command} {ts : List (List ℕ)} → Leads c ts e → walk ts c ≡ e
unfolding walk down_to
walk-Leads stop = refl
walk-Leads (down {c = c} {d = d} {t = t} {ts = ts} i h k l) =
    ap (λ o. walk ts (down_to c o)) (find_sub-only t d (sub_command c) i h k) ∙ walk-Leads l

root_count-pos :
    (t : List ℕ) (d : Command) (cs : Commands)
    → In d cs
    → is_prefix t (name d) ≡ true
    → 1 ≤ root_count t cs
unfolding root_count
root_count-pos t d no_command i h = elim i [ ]
root_count-pos t d (c +: cs) (here e) h =
    ground (arith, subst (λ x. is_prefix t (name x) ≡ true) (sym e) h)
root_count-pos t d (c +: cs) (later i) h = ground (arith, root_count-pos t d cs i h)

pub find_root-none : (t : List ℕ) (cs : Commands) → root_count t cs ≡ 0 → find_root t cs ≡ none
unfolding root_count find_root
find_root-none t no_command h = refl
find_root-none t (c +: cs) h = ground (arith, find_root-none t cs)

pub none-root_count : (t : List ℕ) (cs : Commands) → find_root t cs ≡ none → root_count t cs ≡ 0
unfolding root_count find_root
none-root_count t no_command h = refl
none-root_count t (c +: cs) h = ground (arith, none-root_count t cs)

find_root-only :
    (t : List ℕ) (d : Command) (cs : Commands)
    → In d cs
    → is_prefix t (name d) ≡ true
    → root_count t cs ≡ 1
    → find_root t cs ≡ some d
unfolding root_count find_root
find_root-only t d no_command i h k = elim i [ ]
find_root-only t d (c +: cs) (here e) h k =
    let g = subst (λ x. is_prefix t (name x) ≡ true) (sym e) h in
    rw (find_root-none t cs (ground (arith, g)), g) (ap some e)
find_root-only t d (c +: cs) (later i) h k =
    let n = root_count-pos t d cs i h in rw (find_root-only t d cs i h (ground (arith, n))) refl

walked-none : (ts : List (List ℕ)) (o : Option Command) → walked ts o ≡ none → o ≡ none
unfolding walked
walked-none ts none h = refl
walked-none ts (some c) h = ground (arith, h)

-- A line whose first token abbreviates one command of the root, and whose other tokens each stand
-- for one command below the command before, by an abbreviation of the name or as a value, finds the
-- command at the end of this path.
pub find_command-Leads :
    (cs : Commands) (t : List ℕ) (ts : List (List ℕ)) (c e : Command)
    → In c cs
    → is_prefix t (name c) ≡ true
    → root_count t cs ≡ 1
    → Leads c ts e
    → find_command cs (t ∷ ts) ≡ some e
unfolding find_command walked
find_command-Leads cs t ts c e i h k l = rw (find_root-only t c cs i h k) (ap some (walk-Leads l))

-- A line finds no command exactly where its first token abbreviates no command of the root, whatever
-- tokens follow.
pub find_command-none :
    (cs : Commands) (t : List ℕ) (ts : List (List ℕ))
    → (find_command cs (t ∷ ts) ≡ none) ↔ (root_count t cs ≡ 0)
unfolding find_command walked
find_command-none cs t ts = (
  λ h. none-root_count t cs (walked-none ts (find_root t cs) h),
  λ h. ap (walked ts) (find_root-none t cs h),
)

-- A token that nothing below the command reached so far takes is left out.
pub walk_skips_unknown :
    (c : Command) (ts us : List (List ℕ)) (u : List ℕ)
    → find_sub u (sub_command (walk ts c)) ≡ none
    → walk (ts ++ (u ∷ us)) c ≡ walk (ts ++ us) c
unfolding walk down_to
walk_skips_unknown c [] us u h = ap (λ o. walk us (down_to c o)) h
walk_skips_unknown c (t ∷ ts) us u h =
    walk_skips_unknown (down_to c (find_sub t (sub_command c))) ts us u h
