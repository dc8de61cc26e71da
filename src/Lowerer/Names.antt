-- ===== src/Lowerer/Names.antt =====
-- The comparison of labels and class names in src/backend/ana_lowerer.cpp.
use anastasia.Base.{ℕ, Bool, false, ◌||◌, Option, some, List, [], ◌∷◌, ◌==◌, if◌then◌else◌}

-- The byte at the pointer; the list ends before the terminating zero.
abbrev char_at : List ℕ → ℕ
char_at [] = 0
char_at (c ∷ cs) = c

abbrev pub skip_dot : List ℕ → List ℕ
skip_dot [] = []
skip_dot (c ∷ cs) = if c == 46 then cs else c ∷ cs

-- `(*s == ':') ? '\0' : *s`
abbrev last_char : ℕ → ℕ
last_char c = if c == 58 then 0 else c

abbrev is_end : ℕ → Bool
is_end c = c == 0 || c == 58

-- The loop and the comparison behind it.
unfoldable pub streq_loop : List ℕ → List ℕ → Bool
streq_loop [] s2 = last_char (char_at s2) == 0
streq_loop (a ∷ s1) [] = last_char a == 0
streq_loop (a ∷ s1) (b ∷ s2) =
    let rest = streq_loop s1 s2 in
    if is_end a || is_end b then last_char a == last_char b else if a == b then rest else false

-- A null pointer is `none`.
unfoldable pub streq_impl : Option (List ℕ) → Option (List ℕ) → Bool
unfolding streq_loop
streq_impl (some s1) (some s2) = streq_loop (skip_dot s1) (skip_dot s2)
streq_impl _ _ = false

-- The text before the first colon or zero byte.
abbrev pub stem : List ℕ → List ℕ
stem [] = []
stem (c ∷ cs) = if c == 58 || c == 0 then [] else c ∷ stem cs
