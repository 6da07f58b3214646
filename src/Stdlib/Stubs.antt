-- ===== src/Stdlib/Stubs.antt =====
-- stdlib.c: the functions of the standard library that do nothing but return, and sorting and searching.
--
-- A stream, a name, a format and a buffer are addresses, and what follows the format is not looked at.
use ea_x.Prelude.{ℕ, Array}

abbrev pub printf : (format : ℕ) → ℕ
printf format = 0

abbrev pub sprintf : (str format : ℕ) → ℕ
sprintf str format = 0

abbrev pub snprintf : (str size format : ℕ) → ℕ
snprintf str size format = 0

abbrev pub vsprintf : (str format ap : ℕ) → ℕ
vsprintf str format ap = 0

abbrev pub vsnprintf : (str size format ap : ℕ) → ℕ
vsnprintf str size format ap = 0

abbrev pub puts : (s : ℕ) → ℕ
puts s = 0

abbrev pub putchar : (c : ℕ) → ℕ
putchar c = c

abbrev pub fputc : (c stream : ℕ) → ℕ
fputc c stream = c

abbrev pub fread : (ptr size nmemb stream : ℕ) → ℕ
fread ptr size nmemb stream = 0

abbrev pub fwrite : (ptr size nmemb stream : ℕ) → ℕ
fwrite ptr size nmemb stream = nmemb

abbrev pub fopen : (filename mode : ℕ) → ℕ
fopen filename mode = 0

abbrev pub fclose : (stream : ℕ) → ℕ
fclose stream = 0

abbrev pub fseek : (stream offset whence : ℕ) → ℕ
fseek stream offset whence = 0

abbrev pub ftell : (stream : ℕ) → ℕ
ftell stream = 0

-- The comparison is the caller's: what it returns for two addresses.
abbrev pub qsort_compare : (a b : ℕ) → (ℕ → ℕ → ℕ) → ℕ
qsort_compare a b compar = compar a b

-- `qsort` leaves the memory as it is.
abbrev pub qsort : Array ℕ → (base nmemb size : ℕ) → (ℕ → ℕ → ℕ) → Array ℕ
qsort ram base nmemb size compar = ram

-- `bsearch` finds nothing: it returns NULL.
abbrev pub bsearch : Array ℕ → (key base nmemb size : ℕ) → (ℕ → ℕ → ℕ) → ℕ
bsearch ram key base nmemb size compar = 0

-- It changes nothing.
abbrev pub rewind : Array ℕ → (stream : ℕ) → Array ℕ
rewind ram stream = ram
