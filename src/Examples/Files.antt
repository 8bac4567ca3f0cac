-- ===== src/Examples/Files.antt =====
-- A file of dos.library as the list of its bytes with a position: every call succeeds.
use lhassa.Base.{
  refl, ℕ, ◌+◌, ◌^◌, ◌%◌, true, false, List, [], ◌++◌, none, some, length, take, drop,
}
use lhassa.Stream.{Dos, Stream}
use lhassa.Header.Reread.{Appends, Holds}

abbrev pub MemoryFile : Type 0
MemoryFile = record { bytes : List ℕ; pos : ℕ }

abbrev pub memory_dos : Dos
memory_dos = record {
  File = MemoryFile;
  read = λ f n.
      let got = take n (drop f.pos f.bytes) in
      (some got, record { bytes = f.bytes; pos = f.pos + length got });
  write = λ f xs. (some (length xs), record { bytes = f.bytes ++ xs; pos = f.pos });
  seek_current = λ f d. (true, record { bytes = f.bytes; pos = (f.pos + d) % 2 ^ 32 });
  seek_beginning = λ f p. (true, record { bytes = f.bytes; pos = p });
  tell = λ f. some f.pos;
}

abbrev pub new_file : Stream memory_dos
new_file = record {
  fh = some (record { bytes = []; pos = 0 });
  mem = none;
  mem_pos = 0;
  mem_owned = false;
}

abbrev pub written : Stream memory_dos → List ℕ
written s = elim s.fh [ none ↦ [] | some f ↦ f.bytes ]

-- An archive in memory.
abbrev pub in_memory : List ℕ → Stream memory_dos
in_memory bytes = record { fh = none; mem = some bytes; mem_pos = 0; mem_owned = false }

-- Writes to such a file append.
abbrev pub file_laws : Appends memory_dos
file_laws = record { contents = λ f. f.bytes; writes_all = λ f xs. refl; appends = λ f xs. refl }

abbrev pub new_file-Holds : Holds file_laws new_file []
new_file-Holds = record { file = record { bytes = []; pos = 0 }; is_open = refl; holds = refl }
