-- ===== src/Dir/Entry.antt =====
-- src/common/fatdefs.h: where the fields of the packed `struct fatdirentry` lie in its 32 bytes. The source
-- copies the struct as it stands in memory; here `decode` and `encode` are what such a copy means.
use legendary_journey.Base.{
  ℕ, ◌+◌, ◌-◌, ◌*◌, ◌/◌, ◌%◌, List, [], ◌∷◌, ltb, if◌then◌else◌, Block, slice, le32, get_or,
}
use legendary_journey.File.{DirEntry}

abbrev pub entry_bytes : ℕ
entry_bytes = 32

abbrev pub le16 : Block → ℕ → ℕ
le16 b a = b a + 256 * b (a + 1)

-- the entry that 32 bytes hold
unfoldable pub decode : Block → DirEntry
decode b = record {
  filename = slice b 0 11;
  attributes = b 11;
  reserved = b 12;
  creationtimetenths = b 13;
  creationtime = le16 b 14;
  creationdate = le16 b 16;
  accessdate = le16 b 18;
  firstclusterhi = le16 b 20;
  modifytime = le16 b 22;
  modifydate = le16 b 24;
  firstclusterlo = le16 b 26;
  filesize = le32 b 28;
}

-- the bytes behind the name
abbrev fields_of : DirEntry → List ℕ
fields_of e =
    (e.attributes % 256)
    ∷ (e.reserved % 256)
    ∷ (e.creationtimetenths % 256)
    ∷ (e.creationtime % 256)
    ∷ (e.creationtime / 256 % 256)
    ∷ (e.creationdate % 256)
    ∷ (e.creationdate / 256 % 256)
    ∷ (e.accessdate % 256)
    ∷ (e.accessdate / 256 % 256)
    ∷ (e.firstclusterhi % 256)
    ∷ (e.firstclusterhi / 256 % 256)
    ∷ (e.modifytime % 256)
    ∷ (e.modifytime / 256 % 256)
    ∷ (e.modifydate % 256)
    ∷ (e.modifydate / 256 % 256)
    ∷ (e.firstclusterlo % 256)
    ∷ (e.firstclusterlo / 256 % 256)
    ∷ (e.filesize % 256)
    ∷ (e.filesize / 256 % 256)
    ∷ (e.filesize / 65536 % 256)
    ∷ (e.filesize / 16777216 % 256)
    ∷ []

unfoldable pub encode : DirEntry → Block
encode e i = if ltb i 11 then get_or e.filename i 0 else get_or (fields_of e) (i - 11) 0
