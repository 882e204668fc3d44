-- ===== src/Cdn/Table.antt =====
-- internal/cdn/cdn.go: the operators that the program knows.
use Prim.Native.String.{String}
use dns_stack.Prelude.{ℕ, List, [], ◌∷◌}
use dns_stack.Text.{Bytes}
use dns_stack.Text.Match.{codes}

pub record Operator : Type 0 where
  pub id : Bytes
  pub name : String
  pub roots : List Bytes
  pub asns : List ℕ
  pub prefix_asns : List ℕ

abbrev akamai : Operator
akamai = record {
  id = codes "akamai";
  name = "Akamai";
  roots =
      codes "akadns.net"
      ∷ codes "akadns6.net"
      ∷ codes "akagtm.org"
      ∷ codes "akam.net"
      ∷ codes "akamai.net"
      ∷ codes "akamaiedge.net"
      ∷ codes "akamaiedge-staging.net"
      ∷ codes "akamaihd.net"
      ∷ codes "akamaized.net"
      ∷ codes "akamaistream.net"
      ∷ codes "akamaitechnologies.com"
      ∷ codes "akaquill.net"
      ∷ codes "edgekey.net"
      ∷ codes "edgekey-staging.net"
      ∷ codes "edgesuite.net"
      ∷ [];
  asns = 12222 ∷ 16625 ∷ 16702 ∷ 20940 ∷ 21342 ∷ 32787 ∷ 33905 ∷ 35994 ∷ [];
  prefix_asns = [];
}

abbrev apple : Operator
apple = record {
  id = codes "apple";
  name = "Apple";
  roots = codes "aaplimg.com" ∷ codes "apple-dns.net" ∷ codes "cdn-apple.com" ∷ [];
  asns = [];
  prefix_asns = 714 ∷ 6185 ∷ [];
}

abbrev microsoft : Operator
microsoft = record {
  id = codes "microsoft";
  name = "Microsoft";
  roots =
      codes "azure-dns.com"
      ∷ codes "azure-dns.net"
      ∷ codes "azure-dns.org"
      ∷ codes "azure-dns.info"
      ∷ codes "azureedge.net"
      ∷ codes "azurefd.net"
      ∷ codes "tm-azurefd.net"
      ∷ codes "trafficmanager.net"
      ∷ codes "msedge.net"
      ∷ codes "a-msedge.net"
      ∷ codes "l-msedge.net"
      ∷ codes "s-msedge.net"
      ∷ [];
  asns = 8068 ∷ 8075 ∷ [];
  prefix_asns = [];
}

abbrev amazon : Operator
amazon = record {
  id = codes "amazon";
  name = "AWS";
  roots = codes "cloudfront.net" ∷ [];
  asns = 7224 ∷ 14618 ∷ 16509 ∷ [];
  prefix_asns = [];
}

abbrev cloudflare : Operator
cloudflare = record {
  id = codes "cloudflare";
  name = "Cloudflare";
  roots = codes "cloudflare.net" ∷ [];
  asns = 13335 ∷ [];
  prefix_asns = [];
}

abbrev fastly : Operator
fastly = record {
  id = codes "fastly";
  name = "Fastly";
  roots = codes "fastly.net" ∷ codes "fastlylb.net" ∷ [];
  asns = 54113 ∷ 394192 ∷ [];
  prefix_asns = [];
}

abbrev imperva : Operator
imperva = record {
  id = codes "imperva";
  name = "Imperva";
  roots = codes "incapdns.net" ∷ codes "impervadns.net" ∷ [];
  asns = 19551 ∷ [];
  prefix_asns = [];
}

abbrev cdn77 : Operator
cdn77 = record {
  id = codes "cdn77";
  name = "CDN77";
  roots = codes "cdn77.org" ∷ [];
  asns = [];
  prefix_asns = [];
}

abbrev gcore : Operator
gcore = record {
  id = codes "gcore";
  name = "G-Core";
  roots = codes "gcdn.co" ∷ codes "gcorelabs.com" ∷ [];
  asns = [];
  prefix_asns = [];
}

abbrev bunny : Operator
bunny = record {
  id = codes "bunny";
  name = "Bunny";
  roots = codes "b-cdn.net" ∷ codes "bunnycdn.com" ∷ [];
  asns = [];
  prefix_asns = [];
}

abbrev cachefly : Operator
cachefly = record {
  id = codes "cachefly";
  name = "CacheFly";
  roots = codes "cachefly.net" ∷ [];
  asns = [];
  prefix_asns = [];
}

abbrev edgecast : Operator
edgecast = record {
  id = codes "edgecast";
  name = "Edgecast";
  roots = codes "edgecastcdn.net" ∷ [];
  asns = [];
  prefix_asns = [];
}

abbrev edgio : Operator
edgio = record {
  id = codes "edgio";
  name = "Edgio";
  roots = codes "llnwd.net" ∷ codes "footprint.net" ∷ [];
  asns = [];
  prefix_asns = [];
}

abbrev stackpath : Operator
stackpath = record {
  id = codes "stackpath";
  name = "StackPath";
  roots = codes "hwcdn.net" ∷ codes "stackpathcdn.com" ∷ [];
  asns = [];
  prefix_asns = [];
}

abbrev alibaba : Operator
alibaba = record {
  id = codes "alibaba";
  name = "阿里云";
  roots =
      codes "alicdn.com"
      ∷ codes "alikunlun.com"
      ∷ codes "kunlunsl.com"
      ∷ codes "kunlunca.com"
      ∷ codes "kunlunar.com"
      ∷ codes "alidns.com"
      ∷ codes "hichina.com"
      ∷ codes "aliyuncs.com"
      ∷ [];
  asns = [];
  prefix_asns = 24429 ∷ 37963 ∷ 45102 ∷ [];
}

abbrev tencent : Operator
tencent = record {
  id = codes "tencent";
  name = "腾讯云";
  roots =
      codes "myqcloud.com"
      ∷ codes "qcloudcdn.com"
      ∷ codes "ourdvsss.com"
      ∷ codes "tcdnvod.com"
      ∷ codes "cdngslb.com"
      ∷ codes "cdntip.com"
      ∷ codes "dnsv1.com"
      ∷ codes "dnsv2.com"
      ∷ codes "dnsv3.com"
      ∷ codes "dnsv4.com"
      ∷ codes "dnsv5.com"
      ∷ [];
  asns = [];
  prefix_asns = 45090 ∷ 132203 ∷ 132591 ∷ [];
}

abbrev huawei : Operator
huawei = record {
  id = codes "huawei";
  name = "华为云";
  roots =
      codes "cdnhwc1.com"
      ∷ codes "cdnhwc2.com"
      ∷ codes "cdnhwc3.com"
      ∷ codes "cdnhwc5.com"
      ∷ codes "dbankcdn.cn"
      ∷ codes "dbankcdn.com"
      ∷ codes "livehwc3.cn"
      ∷ [];
  asns = [];
  prefix_asns = 55990 ∷ 136907 ∷ [];
}

abbrev wangsu : Operator
wangsu = record {
  id = codes "wangsu";
  name = "网宿";
  roots = codes "wscdns.com" ∷ codes "lxdns.com" ∷ codes "cdn20.com" ∷ [];
  asns = [];
  prefix_asns = [];
}

abbrev baidu : Operator
baidu = record {
  id = codes "baidu";
  name = "百度云";
  roots = codes "bdydns.com" ∷ [];
  asns = [];
  prefix_asns = 38365 ∷ 55967 ∷ [];
}

abbrev qiniu : Operator
qiniu = record {
  id = codes "qiniu";
  name = "七牛云";
  roots = codes "qiniudns.com" ∷ [];
  asns = [];
  prefix_asns = [];
}

abbrev pub operators : List Operator
operators =
    akamai ∷ apple ∷ microsoft ∷ amazon ∷ cloudflare ∷ fastly ∷ imperva ∷ cdn77 ∷ gcore ∷ bunny
    ∷ cachefly ∷ edgecast ∷ edgio ∷ stackpath ∷ alibaba ∷ tencent ∷ huawei ∷ wangsu ∷ baidu ∷ qiniu
    ∷ []
