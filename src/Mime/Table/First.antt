-- ===== src/Mime/Table/First.antt =====
-- mime.c: the first part of the table `MIME_LIST`.
use sillyweb.Base.{List, [], ◌∷◌}
use sillyweb.Mime.Entry.{MimeEntry}

unfoldable pub mime_list_first : List MimeEntry
mime_list_first =
    record { extension = "3dm"; mimetype = "x-world/x-3dmf" }
    ∷ record { extension = "3dmf"; mimetype = "x-world/x-3dmf" }
    ∷ record { extension = "a"; mimetype = "application/octet-stream" }
    ∷ record { extension = "aab"; mimetype = "application/x-authorware-bin" }
    ∷ record { extension = "aam"; mimetype = "application/x-authorware-map" }
    ∷ record { extension = "aas"; mimetype = "application/x-authorware-seg" }
    ∷ record { extension = "abc"; mimetype = "text/vnd.abc" }
    ∷ record { extension = "acgi"; mimetype = "text/html" }
    ∷ record { extension = "afl"; mimetype = "video/animaflex" }
    ∷ record { extension = "ai"; mimetype = "application/postscript" }
    ∷ record { extension = "aif"; mimetype = "audio/aiff" }
    ∷ record { extension = "aif"; mimetype = "audio/x-aiff" }
    ∷ record { extension = "aifc"; mimetype = "audio/aiff" }
    ∷ record { extension = "aifc"; mimetype = "audio/x-aiff" }
    ∷ record { extension = "aiff"; mimetype = "audio/aiff" }
    ∷ record { extension = "aiff"; mimetype = "audio/x-aiff" }
    ∷ record { extension = "aim"; mimetype = "application/x-aim" }
    ∷ record { extension = "aip"; mimetype = "text/x-audiosoft-intra" }
    ∷ record { extension = "ani"; mimetype = "application/x-navi-animation" }
    ∷ record {
      extension = "aos";
      mimetype = "application/x-nokia-9000-communicator-add-on-software";
    }
    ∷ record { extension = "aps"; mimetype = "application/mime" }
    ∷ record { extension = "arc"; mimetype = "application/octet-stream" }
    ∷ record { extension = "arj"; mimetype = "application/arj" }
    ∷ record { extension = "arj"; mimetype = "application/octet-stream" }
    ∷ record { extension = "art"; mimetype = "image/x-jg" }
    ∷ record { extension = "asf"; mimetype = "video/x-ms-asf" }
    ∷ record { extension = "asm"; mimetype = "text/x-asm" }
    ∷ record { extension = "asp"; mimetype = "text/asp" }
    ∷ record { extension = "asx"; mimetype = "application/x-mplayer2" }
    ∷ record { extension = "asx"; mimetype = "video/x-ms-asf" }
    ∷ record { extension = "asx"; mimetype = "video/x-ms-asf-plugin" }
    ∷ record { extension = "au"; mimetype = "audio/basic" }
    ∷ record { extension = "au"; mimetype = "audio/x-au" }
    ∷ record { extension = "avi"; mimetype = "application/x-troff-msvideo" }
    ∷ record { extension = "avi"; mimetype = "video/avi" }
    ∷ record { extension = "avi"; mimetype = "video/msvideo" }
    ∷ record { extension = "avi"; mimetype = "video/x-msvideo" }
    ∷ record { extension = "avs"; mimetype = "video/avs-video" }
    ∷ record { extension = "bcpio"; mimetype = "application/x-bcpio" }
    ∷ record { extension = "bin"; mimetype = "application/mac-binary" }
    ∷ record { extension = "bin"; mimetype = "application/macbinary" }
    ∷ record { extension = "bin"; mimetype = "application/octet-stream" }
    ∷ record { extension = "bin"; mimetype = "application/x-binary" }
    ∷ record { extension = "bin"; mimetype = "application/x-macbinary" }
    ∷ record { extension = "bm"; mimetype = "image/bmp" }
    ∷ record { extension = "bmp"; mimetype = "image/bmp" }
    ∷ record { extension = "bmp"; mimetype = "image/x-windows-bmp" }
    ∷ record { extension = "boo"; mimetype = "application/book" }
    ∷ record { extension = "book"; mimetype = "application/book" }
    ∷ record { extension = "boz"; mimetype = "application/x-bzip2" }
    ∷ record { extension = "bsh"; mimetype = "application/x-bsh" }
    ∷ record { extension = "bz"; mimetype = "application/x-bzip" }
    ∷ record { extension = "bz2"; mimetype = "application/x-bzip2" }
    ∷ record { extension = "c"; mimetype = "text/plain" }
    ∷ record { extension = "c"; mimetype = "text/x-c" }
    ∷ record { extension = "c++"; mimetype = "text/plain" }
    ∷ record { extension = "cat"; mimetype = "application/vnd.ms-pki.seccat" }
    ∷ record { extension = "cc"; mimetype = "text/plain" }
    ∷ record { extension = "cc"; mimetype = "text/x-c" }
    ∷ record { extension = "ccad"; mimetype = "application/clariscad" }
    ∷ record { extension = "cco"; mimetype = "application/x-cocoa" }
    ∷ record { extension = "cdf"; mimetype = "application/cdf" }
    ∷ record { extension = "cdf"; mimetype = "application/x-cdf" }
    ∷ record { extension = "cdf"; mimetype = "application/x-netcdf" }
    ∷ record { extension = "cer"; mimetype = "application/pkix-cert" }
    ∷ record { extension = "cer"; mimetype = "application/x-x509-ca-cert" }
    ∷ record { extension = "cha"; mimetype = "application/x-chat" }
    ∷ record { extension = "chat"; mimetype = "application/x-chat" }
    ∷ record { extension = "class"; mimetype = "application/java" }
    ∷ record { extension = "class"; mimetype = "application/java-byte-code" }
    ∷ record { extension = "class"; mimetype = "application/x-java-class" }
    ∷ record { extension = "com"; mimetype = "application/octet-stream" }
    ∷ record { extension = "com"; mimetype = "text/plain" }
    ∷ record { extension = "conf"; mimetype = "text/plain" }
    ∷ record { extension = "cpio"; mimetype = "application/x-cpio" }
    ∷ record { extension = "cpp"; mimetype = "text/x-c" }
    ∷ record { extension = "cpt"; mimetype = "application/mac-compactpro" }
    ∷ record { extension = "cpt"; mimetype = "application/x-compactpro" }
    ∷ record { extension = "cpt"; mimetype = "application/x-cpt" }
    ∷ record { extension = "crl"; mimetype = "application/pkcs-crl" }
    ∷ record { extension = "crl"; mimetype = "application/pkix-crl" }
    ∷ record { extension = "crt"; mimetype = "application/pkix-cert" }
    ∷ record { extension = "crt"; mimetype = "application/x-x509-ca-cert" }
    ∷ record { extension = "crt"; mimetype = "application/x-x509-user-cert" }
    ∷ record { extension = "csh"; mimetype = "application/x-csh" }
    ∷ record { extension = "csh"; mimetype = "text/x-script.csh" }
    ∷ record { extension = "css"; mimetype = "application/x-pointplus" }
    ∷ record { extension = "css"; mimetype = "text/css" }
    ∷ record { extension = "cxx"; mimetype = "text/plain" }
    ∷ record { extension = "dcr"; mimetype = "application/x-director" }
    ∷ record { extension = "deepv"; mimetype = "application/x-deepv" }
    ∷ record { extension = "def"; mimetype = "text/plain" }
    ∷ record { extension = "der"; mimetype = "application/x-x509-ca-cert" }
    ∷ record { extension = "dif"; mimetype = "video/x-dv" }
    ∷ record { extension = "dir"; mimetype = "application/x-director" }
    ∷ record { extension = "dl"; mimetype = "video/dl" }
    ∷ record { extension = "dl"; mimetype = "video/x-dl" }
    ∷ record { extension = "doc"; mimetype = "application/msword" }
    ∷ record { extension = "dot"; mimetype = "application/msword" }
    ∷ record { extension = "dp"; mimetype = "application/commonground" }
    ∷ record { extension = "drw"; mimetype = "application/drafting" }
    ∷ record { extension = "dump"; mimetype = "application/octet-stream" }
    ∷ record { extension = "dv"; mimetype = "video/x-dv" }
    ∷ record { extension = "dvi"; mimetype = "application/x-dvi" }
    ∷ record { extension = "dwf"; mimetype = "drawing/x-dwf (old)" }
    ∷ record { extension = "dwf"; mimetype = "model/vnd.dwf" }
    ∷ record { extension = "dwg"; mimetype = "application/acad" }
    ∷ record { extension = "dwg"; mimetype = "image/vnd.dwg" }
    ∷ record { extension = "dwg"; mimetype = "image/x-dwg" }
    ∷ record { extension = "dxf"; mimetype = "application/dxf" }
    ∷ record { extension = "dxf"; mimetype = "image/vnd.dwg" }
    ∷ record { extension = "dxf"; mimetype = "image/x-dwg" }
    ∷ record { extension = "dxr"; mimetype = "application/x-director" }
    ∷ record { extension = "el"; mimetype = "text/x-script.elisp" }
    ∷ record { extension = "elc"; mimetype = "application/x-bytecode.elisp (compiled elisp)" }
    ∷ record { extension = "elc"; mimetype = "application/x-elc" }
    ∷ record { extension = "env"; mimetype = "application/x-envoy" }
    ∷ record { extension = "eps"; mimetype = "application/postscript" }
    ∷ record { extension = "es"; mimetype = "application/x-esrehber" }
    ∷ record { extension = "etx"; mimetype = "text/x-setext" }
    ∷ record { extension = "evy"; mimetype = "application/envoy" }
    ∷ record { extension = "evy"; mimetype = "application/x-envoy" }
    ∷ record { extension = "exe"; mimetype = "application/octet-stream" }
    ∷ record { extension = "f"; mimetype = "text/plain" }
    ∷ record { extension = "f"; mimetype = "text/x-fortran" }
    ∷ record { extension = "f77"; mimetype = "text/x-fortran" }
    ∷ record { extension = "f90"; mimetype = "text/plain" }
    ∷ record { extension = "f90"; mimetype = "text/x-fortran" }
    ∷ record { extension = "fdf"; mimetype = "application/vnd.fdf" }
    ∷ record { extension = "fif"; mimetype = "application/fractals" }
    ∷ []
