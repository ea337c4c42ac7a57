-- ===== src/Examples/Ending.antt =====
-- A poll that ends, with clients that send nonsense.
use sculpt.Base.{
  ℕ, ◌≡◌, ◌≢◌, some, [], ◌∷◌, Bytes, codes, length, get_elem?, arith, true, false, pos, ℤ, ap, ◌∙◌,
  sym,
}
use sculpt.Machine.Halts.{halts}
use sculpt.Machine.{Kernel, Trace, Reading, Event, byte, eof, read, ptr, out_of_fuel}
use sculpt.Machine.Reads.{count_reads}
use sculpt.Reader.Halts.{Finite}
use sculpt.Sample.{kernel, world}
use sculpt.Poll.{poll}
use sculpt.Poll.Halts.{poll-Finite}
use sculpt.Examples.Client.{reading_of, get_elem?-none}

abbrev nonsense : Bytes
nonsense = codes "what is this"

-- Every connection sends it.
abbrev answers : Trace → Reading
answers (read fd ∷ t) = reading_of eof (get_elem? nonsense (count_reads fd t))
answers t = eof

abbrev knocks : Event
knocks = record { err = false; hup = false; rdhup = false; readable = true; payload = ptr (some 0) }

abbrev babble : Kernel
babble = record (kernel true) { reading = answers; ready = λ t. some (knocks ∷ []) }

byte_not_eof : (c : ℕ) → byte c ≢ eof
byte_not_eof c e = cc

babble-Finite : (fd : ℤ) → Finite babble fd (length nonsense)
babble-Finite fd t h c e =
    let silent : reading_of eof (get_elem? nonsense (count_reads fd t)) ≡ eof =
      ap (reading_of eof) (get_elem?-none nonsense (count_reads fd t) h) in
    byte_not_eof c (sym e ∙ silent)

poll-Finite_example : poll babble 25 true (pos 1000) world ≢ out_of_fuel
poll-Finite_example =
    poll-Finite babble (λ f g msg headers w. halts tt) 25 (length nonsense) babble-Finite
      (omega arith) true (pos 1000) world
