-- ===== src/Main/Survives.antt =====
-- The reader with the sources of a command line, and with the connections that TCP listeners accept.
use genbuf.Reader
use genbuf.Reader.{Source}
use genbuf.Reader.Ends.{All}
use genbuf.Logger
use genbuf.Setup.Inputs.{IsReady}
use genbuf.Main.{Setting}

abbrev AllReady : Setting → Type 0
AllReady s = All IsReady s.sources
